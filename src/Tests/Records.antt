-- ===== src/Tests/Records.antt =====
-- States of documents: their merge, their encoding and their keys.
use mathlib.Core.List.{Permᴰ}
use html_inbox.Common.{ℕ, ◌≡◌, refl, [], ◌∷◌, map, js, ok, arith}
use html_inbox.Json.{IsUnits}
use html_inbox.Json.Keys.{canonical_key-injective, outbox_key-injective}
use html_inbox.Model.{OriginState, live, deleted}
use html_inbox.Model.Parse.{parse_origin_state}
use html_inbox.Ledger.Encode.{of_state}
use html_inbox.Ledger.Origin.{IsState, parse_origin_state-IsState}
use html_inbox.Ledger.Reread.{parse_origin_state-of_state}
use html_inbox.Merge.{merge_all}
use html_inbox.Merge.Order.{stamp, latest, merge_all-total, merge_all-perm}
use html_inbox.Tests.Opened.{opened}
use html_inbox.Tests.Data.{host, state_of, own_state, other_inbox}

abbrev theirs : ℕ → OriginState
theirs n = state_of other_inbox (js "theirs") n live

abbrev gone : OriginState
gone = state_of other_inbox (js "theirs") 9 deleted

merge_all-total_example :
    (s : OriginState) × (merge_all (theirs 4) (gone ∷ theirs 5 ∷ []) ≡ ok s)
    × (stamp s ≡ latest (stamp (theirs 4)) (map stamp (gone ∷ theirs 5 ∷ [])))
unfolding opened
merge_all-total_example =
    merge_all-total (theirs 4) (gone ∷ theirs 5 ∷ [])
      (((refl, refl), ((refl, refl), tt)), (((refl, refl), tt), (tt, tt)))

merge_all-perm_example : stamp gone ≡ stamp gone
unfolding opened
merge_all-perm_example =
    merge_all-perm (theirs 4) (gone ∷ theirs 5 ∷ []) (theirs 5 ∷ gone ∷ []) gone gone
      ∣ Permᴰ.swap refl refl ∣₁ refl refl

parse_origin_state-IsState_example : IsState own_state
unfolding opened
parse_origin_state-IsState_example = parse_origin_state-IsState (of_state own_state) own_state refl

parse_origin_state-of_state_example : parse_origin_state (of_state own_state) ≡ ok own_state
unfolding opened
parse_origin_state-of_state_example =
    parse_origin_state-of_state own_state
      (parse_origin_state-IsState (of_state own_state) own_state refl) (omega arith)

IsUnits-a : IsUnits (js "a")
IsUnits-a = (omega arith, tt)

IsUnits-b : IsUnits (js "b")
IsUnits-b = (omega arith, tt)

canonical_key-injective_example : (js "a" ≡ js "a") × (js "b" ≡ js "b")
canonical_key-injective_example =
    canonical_key-injective (js "a") (js "b") (js "a") (js "b") IsUnits-a IsUnits-b IsUnits-a
      IsUnits-b refl

abbrev third : ℕ
third = 3

outbox_key-injective_example : (js "a" ≡ js "a") × (third ≡ third) × (js "b" ≡ js "b")
outbox_key-injective_example =
    outbox_key-injective (js "a") (js "a") third third (js "b") (js "b") IsUnits-a IsUnits-a
      IsUnits-b IsUnits-b refl
