-- ===== src/Wire/Ordered.antt =====
-- Inventories whose states stand in the order of their keys, for `validatePageProgress` and the sort of
-- `ManagedSyncStore.inventory`.
use html_inbox.Common.{
  ℕ, ◌+◌, ◌≤◌, ◌≡◌, refl, arith, true, false, ◌||◌, List, [], ◌∷◌, ◌++◌, Option, none, some, Text,
  text_eq, text_lt, text_lt_trans, text_lt_total, text_lt_irrefl, text_eq_iff, length, any, map, ok,
  >>=-eq-ok, reject-eq-ok, reject, Bool-cases, inl, inr,
}
use html_inbox.Model.{OriginState, CompleteInventory, Platform, max_records}
use html_inbox.Model.Codec.{state_key, sort_by_key, sort_from, insert_by_key}
use html_inbox.Model.Routes.{all_distinct}
use html_inbox.Wire.{ManifestPage}
use html_inbox.Wire.Progress.{
  last_from, is_unordered, check_order, is_incomplete, validate_page_progress,
}

pub length-append {ℓ} : {A : Type ℓ} (xs ys : List A) → length (xs ++ ys) ≡ length xs + length ys
length-append [] ys = omega arith
length-append (x ∷ xs) ys = ground (arith, length-append xs ys)

abbrev pub IsAbove : Option OriginState → OriginState → Type 0
IsAbove none state = Unit
IsAbove (some last) state = text_lt (state_key last.unsigned) (state_key state.unsigned) ≡ true

abbrev pub AscendsFrom : Option OriginState → List OriginState → Type 0
AscendsFrom last [] = Unit
AscendsFrom last (state ∷ states) = IsAbove last state × AscendsFrom (some state) states

-- The keys ascend strictly.
abbrev pub IsAscending : List OriginState → Type 0
IsAscending states = AscendsFrom none states

pub AscendsFrom-append :
    (last : Option OriginState) (xs ys : List OriginState)
    → AscendsFrom last xs
    → AscendsFrom (last_from last xs) ys
    → AscendsFrom last (xs ++ ys)
AscendsFrom-append last [] ys h k = k
AscendsFrom-append last (x ∷ xs) ys (p, h) k = (p, AscendsFrom-append (some x) xs ys h k)

pub AscendsFrom-split :
    (last : Option OriginState) (xs ys : List OriginState)
    → AscendsFrom last (xs ++ ys)
    → AscendsFrom last xs × AscendsFrom (last_from last xs) ys
AscendsFrom-split last [] ys h = (tt, h)
AscendsFrom-split last (x ∷ xs) ys (p, h) =
    let (front, back) = AscendsFrom-split (some x) xs ys h in ((p, front), back)

is_unordered_sound :
    (last : Option OriginState) (state : OriginState)
    → is_unordered last state ≡ false
    → IsAbove last state
unfolding is_unordered
is_unordered_sound none state h = tt
is_unordered_sound (some last) state h = ground arith

is_unordered_complete :
    (last : Option OriginState) (state : OriginState)
    → IsAbove last state
    → is_unordered last state ≡ false
unfolding is_unordered
is_unordered_complete none state h = refl
is_unordered_complete (some last) state h = ground arith

pub check_order_sound :
    (last : Option OriginState) (states : List OriginState)
    → check_order last states ≡ ok tt
    → AscendsFrom last states
unfolding check_order
check_order_sound last [] h = tt
check_order_sound last (state ∷ states) h =
    let (u, e, rest) = >>=-eq-ok (reject (is_unordered last state) _) _ h in
    (is_unordered_sound last state (reject-eq-ok _ _ e), check_order_sound (some state) states rest)

pub check_order_complete :
    (last : Option OriginState) (states : List OriginState)
    → AscendsFrom last states
    → check_order last states ≡ ok tt
unfolding check_order
check_order_complete last [] h = refl
check_order_complete last (state ∷ states) (p, h) =
    rw (is_unordered_complete last state p) (check_order_complete (some state) states h)

-- A page that `validatePageProgress` lets through continues an ascending inventory, within the limit.
pub validate_page_progress-IsAscending :
    (page : ManifestPage) (previous : List OriginState) (expected : ℕ)
    (evidence : Option CompleteInventory)
    → IsAscending previous
    → validate_page_progress page previous expected evidence ≡ ok tt
    → IsAscending (previous ++ page.descriptors)
      × (length previous + length page.descriptors ≤ max_records)
unfolding validate_page_progress is_incomplete
validate_page_progress-IsAscending page previous expected evidence h valid =
    let (u, complete, ordered) =
      >>=-eq-ok (reject (is_incomplete page previous expected evidence) _) _ valid in
    (
      AscendsFrom-append none previous page.descriptors h (check_order_sound _ _ ordered),
      ground (arith, reject-eq-ok _ _ complete),
    )

abbrev keys_of : List OriginState → List Text
keys_of states = map (λ s. state_key s.unsigned) states

-- What is above the last of an ascending list differs from all of it.
AscendsFrom-fresh :
    (last : OriginState) (key : Text) (states : List OriginState)
    → text_lt key (state_key last.unsigned) ≡ true
    → AscendsFrom (some last) states
    → any (text_eq key) (keys_of states) ≡ false
AscendsFrom-fresh last key [] h k = refl
AscendsFrom-fresh last key (s ∷ states) h (p, k) =
    let below = text_lt_trans key _ _ h p in
    ground (
      arith,
      below,
      text_eq_iff key (state_key s.unsigned),
      text_lt_irrefl key,
      AscendsFrom-fresh s key states below k,
    )

any-above :
    (s : OriginState) (states : List OriginState)
    → AscendsFrom (some s) states
    → any (text_eq (state_key s.unsigned)) (keys_of states) ≡ false
any-above s [] h = refl
any-above s (t ∷ states) (p, h) = ground (
  arith,
  p,
  text_eq_iff (state_key s.unsigned) (state_key t.unsigned),
  text_lt_irrefl (state_key s.unsigned),
  AscendsFrom-fresh t (state_key s.unsigned) states p h,
)

-- Keys that ascend are distinct.
pub AscendsFrom-all_distinct :
    (last : Option OriginState) (states : List OriginState)
    → AscendsFrom last states
    → all_distinct (keys_of states) ≡ true
unfolding all_distinct
AscendsFrom-all_distinct last [] h = refl
AscendsFrom-all_distinct last (s ∷ states) (p, h) =
    ground (arith, any-above s states h, AscendsFrom-all_distinct (some s) states h)

-- The sort of `inventory`.
insert_by_key-Ascends :
    ⦃p : Platform⦄ (last : Option OriginState) (s : OriginState) (ts : List OriginState)
    → IsAbove last s
    → any (text_eq (state_key s.unsigned)) (keys_of ts) ≡ false
    → AscendsFrom last ts
    → AscendsFrom last (insert_by_key s ts)
unfolding insert_by_key
insert_by_key-Ascends last s [] a f h = (a, tt)
insert_by_key-Ascends last s (t ∷ ts) a f (b, h) =
    elim (Bool-cases (text_lt (state_key s.unsigned) (state_key t.unsigned))) [
      | inl e ↦ rw e (a, (e, h))
      | inr e ↦
          let above : text_lt (state_key t.unsigned) (state_key s.unsigned) ≡ true =
            ground (arith, text_lt_total (state_key s.unsigned) (state_key t.unsigned)) in
          rw e (b, insert_by_key-Ascends (some t) s ts above (ground arith) h)
    ]

any-insert_by_key :
    ⦃p : Platform⦄ (key : Text) (s : OriginState) (ts : List OriginState)
    → any (text_eq key) (keys_of (insert_by_key s ts))
      ≡ (text_eq key (state_key s.unsigned) || any (text_eq key) (keys_of ts))
unfolding insert_by_key
any-insert_by_key key s [] = refl
any-insert_by_key key s (t ∷ ts) = ground (arith, any-insert_by_key key s ts)

abbrev IsFreshIn : List OriginState → List OriginState → Type 0
IsFreshIn sorted [] = Unit
IsFreshIn sorted (s ∷ rest) =
    (any (text_eq (state_key s.unsigned)) (keys_of sorted) ≡ false) × IsFreshIn sorted rest

IsFreshIn-insert :
    ⦃p : Platform⦄ (s : OriginState) (sorted rest : List OriginState)
    → any (text_eq (state_key s.unsigned)) (keys_of rest) ≡ false
    → IsFreshIn sorted rest
    → IsFreshIn (insert_by_key s sorted) rest
IsFreshIn-insert s sorted [] f h = tt
IsFreshIn-insert s sorted (t ∷ rest) f (g, h) = (
  ground (
    arith,
    any-insert_by_key (state_key t.unsigned) s sorted,
    text_eq_iff (state_key t.unsigned) (state_key s.unsigned),
    text_eq_iff (state_key s.unsigned) (state_key t.unsigned),
  ),
  IsFreshIn-insert s sorted rest (ground arith) h,
)

sort_from-IsAscending :
    ⦃p : Platform⦄ (sorted states : List OriginState)
    → IsAscending sorted
    → all_distinct (keys_of states) ≡ true
    → IsFreshIn sorted states
    → IsAscending (sort_from sorted states)
unfolding sort_from all_distinct
sort_from-IsAscending sorted [] h d f = h
sort_from-IsAscending sorted (s ∷ states) h d (g, f) =
    sort_from-IsAscending (insert_by_key s sorted) states
      (insert_by_key-Ascends none s sorted tt g h) (ground arith)
      (IsFreshIn-insert s sorted states (ground arith) f)

IsFreshIn-nil : (states : List OriginState) → IsFreshIn [] states
IsFreshIn-nil [] = tt
IsFreshIn-nil (s ∷ states) = (refl, IsFreshIn-nil states)

-- States of distinct documents ascend once they are sorted.
pub sort_by_key-IsAscending :
    ⦃p : Platform⦄ (states : List OriginState)
    → all_distinct (keys_of states) ≡ true
    → IsAscending (sort_by_key states)
unfolding sort_by_key
sort_by_key-IsAscending states d = sort_from-IsAscending [] states tt d (IsFreshIn-nil states)
