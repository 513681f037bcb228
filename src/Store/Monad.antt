-- ===== src/Store/Monad.antt =====
-- Operations of the store: state that survives an error.
use html_inbox.Common.{
  ◌≡◌, ◌⊎◌, inl, inr, refl, Bool, true, false, Option, if◌then◌else◌, Result, ok, err, Fault,
  reject, require,
}
use html_inbox.Store.{Store}

-- What an operation returns or throws, and the store that it leaves either way.
abbrev pub M : Type 0 → Type 0
M Value = Store → Result Value × Store

abbrev pub pure : {Value : Type 0} → Value → M Value
pure value before = (ok value, before)

-- A computation that reads and changes nothing.
abbrev pub lift : {Value : Type 0} → Result Value → M Value
lift result before = (result, before)

abbrev continue :
    {Value Next : Type 0} → (Value → M Next) → Result Value × Store → Result Next × Store
continue next (err thrown, after) = (err thrown, after)
continue next (ok value, after) = next value after

abbrev pub ◌>>=◌ : {Value Next : Type 0} → M Value → (Value → M Next) → M Next
◌>>=◌ first next before = continue next (first before)

abbrev pub ◌>>◌ : {Next : Type 0} → M (Unit {0}) → M Next → M Next
check >> next = check >>= λ _. next

infixl 5 ◌>>=◌ ◌>>◌
-- `if (test) throw`
abbrev pub deny : Bool → Fault → M (Unit {0})
deny test e = lift (reject test e)

abbrev pub demand : {A : Type 0} → Option A → Fault → M A
demand o e = lift (require o e)

continue-eq-ok :
    {A B : Type 0} (f : A → M B) (m : M A) (s t : Store) {b : B} (r : Result A × Store)
    → m s ≡ r
    → continue f r ≡ (ok b, t)
    → (a : A) × (u : Store) × (m s ≡ (ok a, u)) × (f a u ≡ (ok b, t))
continue-eq-ok f m s t (ok a, u) e k = (a, u, e, k)
continue-eq-ok f m s t (err x, u) e k = cc

-- An operation that succeeds, taken apart.
pub >>=-eq-ok :
    {A B : Type 0} (m : M A) (f : A → M B) (s t : Store) {b : B}
    → (m >>= f) s ≡ (ok b, t)
    → (a : A) × (u : Store) × (m s ≡ (ok a, u)) × (f a u ≡ (ok b, t))
>>=-eq-ok m f s t h = continue-eq-ok f m s t (m s) refl h

-- The branch that a successful operation took.
pub branch-eq-ok :
    {A : Type 0} (test : Bool) (x y : M A) (s t : Store) {a : A}
    → (if test then x else y) s ≡ (ok a, t)
    → ((test ≡ true) × (x s ≡ (ok a, t))) ⊎ ((test ≡ false) × (y s ≡ (ok a, t)))
branch-eq-ok true x y s t h = inl (refl, h)
branch-eq-ok false x y s t h = inr (refl, h)
