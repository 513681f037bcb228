-- ===== src/Common/Lists.antt =====
-- List functions over the native numbers, and predicates by recursion.
use Prim.Native.Nat.{ℕ, suc}
use mathlib.Core.Path.{◌≡◌, refl, ap}
use mathlib.Core.Bool.{Bool, true, false, ◌&&◌, ◌||◌}
use mathlib.Core.Option.{Option, none, some}
use mathlib.Core.List.{List, [], ◌∷◌, ◌++◌, map}
use native.Mathlib.Omega.{arith}
use mathlib.Core.Logic.{inl, inr}
use html_inbox.Common.Tests.{if◌then◌else◌, Bool-cases}

module _ {ℓ} {A : Type ℓ} where
  abbrev pub length : List A → ℕ
  length [] = 0
  length (x ∷ xs) = suc (length xs)

  -- Array.prototype.find
  abbrev pub find : (A → Bool) → List A → Option A
  find p [] = none
  find p (x ∷ xs) = if p x then some x else find p xs

  -- Array.prototype.some
  abbrev pub any : (A → Bool) → List A → Bool
  any p [] = false
  any p (x ∷ xs) = p x || any p xs

  -- Array.prototype.every
  abbrev pub all : (A → Bool) → List A → Bool
  all p [] = true
  all p (x ∷ xs) = p x && all p xs

  -- Array.prototype.filter
  abbrev pub keep : (A → Bool) → List A → List A
  keep p [] = []
  keep p (x ∷ xs) = if p x then x ∷ keep p xs else keep p xs

  pub find_sound : (p : A → Bool) (xs : List A) (x : A) → find p xs ≡ some x → p x ≡ true
  find_sound p [] x h = cc
  find_sound p (y ∷ xs) x h = ground (arith, find_sound p xs x)

  -- What is found stands in the list.
  pub find_split :
      (p : A → Bool) (xs : List A) (x : A)
      → find p xs ≡ some x
      → (front back : List A) × (xs ≡ front ++ x ∷ back)
  find_split p [] x h = cc
  find_split p (y ∷ xs) x h = elim (Bool-cases (p y)) [
    | inl here ↦ ([], xs, let same : y ≡ x = ground arith in ap (λ z. z ∷ xs) same)
    | inr later ↦
        let rest : find p xs ≡ some x = ground arith in
        let (front, back, e) = find_split p xs x rest in (y ∷ front, back, ap (λ zs. y ∷ zs) e)
  ]

module _ {ℓ} {A : Type ℓ} where
  -- Some value of the list passes a test.
  pub any_split :
      (p : A → Bool) (xs : List A)
      → any p xs ≡ true
      → (x : A) × (front back : List A) × (xs ≡ front ++ x ∷ back) × (p x ≡ true)
  any_split p [] h = cc
  any_split p (y ∷ xs) h = elim (Bool-cases (p y)) [
    | inl here ↦ (y, [], xs, refl, here)
    | inr later ↦
        let rest : any p xs ≡ true = ground arith in
        let (x, front, back, e, h2) = any_split p xs rest in
        (x, y ∷ front, back, ap (λ zs. y ∷ zs) e, h2)
  ]

  pub any_member :
      (p : A → Bool) (front back : List A) (x : A) → p x ≡ true → any p (front ++ x ∷ back) ≡ true
  any_member p [] back x h = ground arith
  any_member p (y ∷ front) back x h = ground (arith, any_member p front back x h)

module _ {ℓ κ} {A : Type ℓ} (P : A → Type κ) where
  abbrev pub All : List A → Type κ
  All [] = Unit
  All (x ∷ xs) = P x × All xs

  pub All-append : (xs ys : List A) → All xs → All ys → All (xs ++ ys)
  All-append [] ys h k = k
  All-append (x ∷ xs) ys (p, h) k = (p, All-append xs ys h k)

  pub find-All : (p : A → Bool) (xs : List A) (x : A) → All xs → find p xs ≡ some x → P x
  find-All p [] x h e = cc
  find-All p (y ∷ xs) x (q, h) e = ground (arith, find-All p xs x h)

  pub map-All : (f : A → A) (xs : List A) → ((x : A) → P (f x)) → All (map f xs)
  map-All f [] h = tt
  map-All f (x ∷ xs) h = (h x, map-All f xs h)
