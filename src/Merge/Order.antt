-- ===== src/Merge/Order.antt =====
-- The decision between two states of a document, against the order of their stamps.
use mathlib.Core.Path.{ap₂}
use mathlib.Core.List.{Perm, Permᴰ}
use mathlib.Core.Logic.{∥∥₁_elim}
use html_inbox.Common.{
  ℕ, ◌≡◌, ◌⊎◌, inl, inr, All, refl, sym, ap, ◌∙◌, true, false, List, [], ◌∷◌, map, max, ok,
  >>=-eq-ok, arith,
}
use html_inbox.Model.{OriginState, Liveness, live, deleted}
use html_inbox.Model.Codec.{same_immutable_descriptor}
use html_inbox.Merge.{conflicts, verdict, merge, merge_all}

-- What orders the states of one document.
pub record Stamp : Type 0 where
  pub state : Liveness
  pub version : ℕ

abbrev pub stamp : OriginState → Stamp
stamp s = record { state = s.state; version = s.version }

-- The later of two stamps, by their parts.
unfoldable pub later_of : Liveness → Liveness → ℕ → ℕ → Stamp
later_of live live m n = record { state = live; version = max m n }
later_of live deleted m n = record { state = deleted; version = n }
later_of deleted live m n = record { state = deleted; version = m }
later_of deleted deleted m n = record { state = deleted; version = max m n }

unfoldable pub later : Stamp → Stamp → Stamp
unfolding later_of
later a b = later_of a.state b.state a.version b.version

-- The latest of a list of stamps.
unfoldable pub latest : Stamp → List Stamp → Stamp
latest a [] = a
latest a (b ∷ bs) = latest (later a b) bs

max_swap : (a b c : ℕ) → max (max a b) c ≡ max (max a c) b
max_swap a b c = omega arith

later_swap : (a b c : Stamp) → later (later a b) c ≡ later (later a c) b
unfolding later
later_swap a b c = ground (arith, max_swap a.version b.version c.version)

latest-Permᴰ :
    (bs cs : List OriginState)
    → Permᴰ bs cs
    → (a : Stamp) → latest a (map stamp bs) ≡ latest a (map stamp cs)
unfolding latest
latest-Permᴰ bs cs Permᴰ.nil a = refl
latest-Permᴰ bs cs (Permᴰ.cons {a = x} {b = y} {l₁} {l₂} e p) a =
    ap (λ z. latest (later a (stamp z)) (map stamp l₁)) e ∙ latest-Permᴰ l₁ l₂ p (later a (stamp y))
latest-Permᴰ bs cs (Permᴰ.swap {a = x} {b = y} {a' = x'} {b' = y'} {l} e f) a =
    ap (λ z. latest z (map stamp l))
      (later_swap a (stamp x) (stamp y) ∙ ap₂ (λ u v. later (later a (stamp u)) (stamp v)) f e)
latest-Permᴰ bs cs (Permᴰ.trans {l₂} p q) a = latest-Permᴰ bs l₂ p a ∙ latest-Permᴰ l₂ cs q a

Stamp-set : IsSet Stamp
Stamp-set = hlevel

merge-later :
    (held state s : OriginState)
    → merge held state ≡ ok s
    → stamp s ≡ later (stamp held) (stamp state)
unfolding merge verdict later
merge-later held state s h = ground arith

merge_all-latest :
    (held : OriginState) (states : List OriginState) (s : OriginState)
    → merge_all held states ≡ ok s
    → stamp s ≡ latest (stamp held) (map stamp states)
unfolding merge_all latest
merge_all-latest held [] s h = ground arith
merge_all-latest held (state ∷ more) s h =
    let (next, one, rest) = >>=-eq-ok (merge held state) _ h in
    merge_all-latest next more s rest
    ∙ ap (λ a. latest a (map stamp more)) (merge-later held state next one)

-- Where a record takes the same states in two orders, each without an error, it ends deleted or live alike
-- and with the same version.
pub merge_all-perm :
    (held : OriginState) (xs ys : List OriginState) (s t : OriginState)
    → Perm xs ys
    → merge_all held xs ≡ ok s
    → merge_all held ys ≡ ok t
    → stamp s ≡ stamp t
merge_all-perm held xs ys s t p hs ht = ∥∥₁_elim p (Stamp-set _ _) λ d.
    merge_all-latest held xs s hs
    ∙ latest-Permᴰ xs ys d (stamp held)
    ∙ sym (merge_all-latest held ys t ht)

-- Two states that one owner may have signed: of one descriptor, and one state for each version.
abbrev pub Compatible : OriginState → OriginState → Type 0
Compatible a b = (same_immutable_descriptor a.unsigned b.unsigned ≡ true) × (conflicts a b ≡ false)

abbrev pub Consistent : List OriginState → Type 0
Consistent [] = Unit
Consistent (s ∷ ss) = All (Compatible s) ss × Consistent ss

merge-total :
    (held state : OriginState)
    → Compatible held state
    → (merge held state ≡ ok held) ⊎ (merge held state ≡ ok state)
unfolding merge verdict
merge-total held state h = ground arith

merge_all-ok :
    (held : OriginState) (states : List OriginState)
    → Consistent (held ∷ states)
    → (s : OriginState) × (merge_all held states ≡ ok s)
unfolding merge_all
merge_all-ok held [] h = (held, refl)
merge_all-ok held (state ∷ more) ((c, h), (d, k)) = elim (merge-total held state c) [
  | inl stays ↦ let (s, e) = merge_all-ok held more (h, k) in (s, rw stays e)
  | inr taken ↦ let (s, e) = merge_all-ok state more (d, k) in (s, rw taken e)
]

-- A record that receives states of one consistent history takes them all without an error; it ends
-- with the latest of them, so a deletion among them is final.
pub merge_all-total :
    (held : OriginState) (states : List OriginState)
    → Consistent (held ∷ states)
    → (s : OriginState) × (merge_all held states ≡ ok s)
      × (stamp s ≡ latest (stamp held) (map stamp states))
merge_all-total held states h =
    let (s, e) = merge_all-ok held states h in (s, e, merge_all-latest held states s e)
