-- ===== src/Policy/Schedule.antt =====
-- The schedule of retries.
use html_inbox.Common.{
  ℕ, zero, suc, ◌+◌, ◌-◌, ◌*◌, ◌/◌, ◌^◌, ◌≤◌, ◌<◌, ◌≡◌, refl, sym, ap, ◌∙◌, Bool, false, ◌||◌,
  Option, none, some, Text, lookup, min, leb, arith,
}
use native.Mathlib.Nat.{
  mul-le-mul_left, mul-le-mul_right, div-lt_iff_lt-mul, lt-div-mul-add, one-le-pow,
  pow-le-pow_right,
}
use native.Mathlib.Decide.{dec_le}
use html_inbox.Model.{SyncRoute}
use html_inbox.Ledger.{RouteRetryState, SyncLedger}
use html_inbox.Policy.Retry.{
  Fraction, base_delay, jittered, is_history_wait, next_route_retry, counted_retry, is_route_due,
  max_attempts,
}

-- A fraction from 0 to 1.
abbrev pub IsUnit : Fraction → Type 0
IsUnit f = (0 < f.den) × (f.num ≤ f.den)

lt_suc_of : {m n : ℕ} → m < n + 1 → m ≤ n
lt_suc_of h = omega arith

jittered-le : (d : ℕ) (f : Fraction) → IsUnit f → jittered d f ≤ d
unfolding jittered
jittered-le d f (pos, le) =
    let below : d * (f.den + f.num) + f.den < (d + 1) * (2 * f.den) =
      omega (arith, mul-le-mul_left d le) in
    lt_suc_of ((div-lt_iff_lt-mul (omega arith)).1 below)

half-le-jittered : (d : ℕ) (f : Fraction) → IsUnit f → d ≤ 2 * jittered d f
unfolding jittered
half-le-jittered d f (pos, le) =
    let q = (d * (f.den + f.num) + f.den) / (2 * f.den) in
    let above : d * (f.den + f.num) + f.den < q * (2 * f.den) + 2 * f.den =
      lt-div-mul-add (omega arith) in
    elim (dec_le d (2 * q)) [
      | yes fits ↦ fits
      | no over ↦
          absurd
            (omega (arith, mul-le-mul_right {m = 2 * q + 2} {n = d + 1} f.den (omega arith), above))
    ]

-- The delay before jitter lies between one second and five minutes.
base_delay_bounds : (n : ℕ) → (1000 ≤ base_delay n) × (base_delay n ≤ 300000)
unfolding base_delay
base_delay_bounds n =
    let power = one-le-pow (min (n - 1) 30) 2 (omega arith) in (omega arith, omega arith)

-- The delay before jitter never falls from one attempt to the next.
base_delay_mono : (m n : ℕ) → m ≤ n → base_delay m ≤ base_delay n
unfolding base_delay
base_delay_mono m n h =
    let power : 2 ^ min (m - 1) 30 ≤ 2 ^ min (n - 1) 30 =
      pow-le-pow_right (omega arith) (omega arith) in
    omega arith

capped : (power : ℕ) → 2 ^ 30 ≤ power → min 300000 (1000 * 2 ^ 30) ≡ min 300000 (1000 * power)
capped power h = omega arith

-- One second, doubled with every attempt after the first, at most five minutes.
abbrev pub doubled_delay : ℕ → ℕ
doubled_delay attempts = min 300000 (1000 * 2 ^ (attempts - 1))

-- The bound on the exponent is never felt.
base_delay_doubled : (n : ℕ) → base_delay n ≡ doubled_delay n
unfolding base_delay
base_delay_doubled n = elim (dec_le (n - 1) 30) [
  | yes small ↦
      let same : min (n - 1) 30 ≡ n - 1 = omega arith in ap (λ e. min 300000 (1000 * 2 ^ e)) same
  | no large ↦
      let top : min (n - 1) 30 ≡ 30 = omega arith in
      let power : 2 ^ 30 ≤ 2 ^ (n - 1) =
        let wide : 30 ≤ n - 1 = omega arith in pow-le-pow_right (omega arith) wide in
      ap (λ e. min 300000 (1000 * 2 ^ e)) top ∙ capped (2 ^ (n - 1)) power
]

abbrev attempts_of : Option RouteRetryState → ℕ
attempts_of none = 0
attempts_of (some r) = r.attempts

-- What the schedule says after a failed run.
pub record IsBackedOff (route : SyncRoute) (previous : Option RouteRetryState) (error : Text)
    (blocked : Bool) (now : ℕ) (next : RouteRetryState) : Type 0 where
  pub revision : next.revision ≡ route.revision
  pub counted : next.attempts ≡ attempts_of previous + 1
  pub error_kept : next.last_error ≡ some error
  pub not_before : now + 500 ≤ next.next_attempt_at
  pub half_delay : doubled_delay next.attempts ≤ 2 * (next.next_attempt_at - now)
  pub not_after : next.next_attempt_at ≤ now + doubled_delay next.attempts
  pub within : next.next_attempt_at ≤ now + 300000
  pub stops : next.blocked ≡ (blocked || leb max_attempts next.attempts)

counted_retry-IsBackedOff :
    (route : SyncRoute) (previous : Option RouteRetryState) (error : Text) (blocked : Bool)
    (now : ℕ) (random : Fraction)
    → IsUnit random
    → IsBackedOff route previous error blocked now
        (counted_retry route previous (some error) blocked now random)
unfolding counted_retry
counted_retry-IsBackedOff route previous error blocked now random unit =
    let count = attempts_of previous + 1 in
    let delay = base_delay count in
    let most = jittered-le delay random unit in
    let least = half-le-jittered delay random unit in
    let bounds = base_delay_bounds count in
    let doubled = base_delay_doubled count in
    record {
      revision = refl;
      counted = refl;
      error_kept = refl;
      not_before = omega (arith, least, bounds.0);
      half_delay = rw (sym doubled) (omega (arith, least));
      not_after = rw (sym doubled) (omega (arith, most));
      within = omega (arith, most, bounds.1);
      stops = refl;
    }

-- A failure that is no wait for history counts one attempt more. The next attempt comes half a second later at
-- the least, and between half and the whole of a delay that is one second for the first attempt, doubles
-- with each one after it, and is at most five minutes; the route is blocked if the failure is permanent or
-- the attempts have reached twenty.
pub next_route_retry-IsBackedOff :
    (route : SyncRoute) (previous : Option RouteRetryState) (error : Text) (blocked : Bool)
    (now interval : ℕ) (random : Fraction)
    → is_history_wait (some error) ≡ false
    → IsUnit random
    → IsBackedOff route previous error blocked now
        (next_route_retry route previous (some error) blocked now interval random)
unfolding next_route_retry
next_route_retry-IsBackedOff route previous error blocked now interval random h unit =
    rw h (counted_retry-IsBackedOff route previous error blocked now random unit)

-- The schedule of a route that has only failed, `n` times in a row, each time with an error of its own, which
-- may be permanent.
unfoldable pub after_failures :
    SyncRoute → (ℕ → Text) → (ℕ → Bool) → (ℕ → ℕ) → ℕ → (ℕ → Fraction) → ℕ → Option RouteRetryState
after_failures route errors permanent clock interval random zero = none
after_failures route errors permanent clock interval random (suc n) = some (
    next_route_retry route (after_failures route errors permanent clock interval random n)
      (some (errors n)) (permanent n) (clock n) interval (random n))

module _ (route : SyncRoute) (errors : ℕ → Text) (permanent : ℕ → Bool) (clock : ℕ → ℕ)
    (interval : ℕ) (random : ℕ → Fraction)
    (counted : (i : ℕ) → is_history_wait (some (errors i)) ≡ false) where
  after_failures_attempts :
      (n : ℕ) → attempts_of (after_failures route errors permanent clock interval random n) ≡ n
  unfolding after_failures next_route_retry
  after_failures_attempts zero = refl
  after_failures_attempts (suc n) =
      let own = counted n in ground (arith, own, after_failures_attempts n)

  -- Twenty failures in a row, or more, none of which is a wait for history, stop a route: by the schedule that
  -- they leave it is never due again.
  pub is_route_due-after_failures :
      (ledger : SyncLedger) (n now : ℕ)
      → 20 ≤ n
      → lookup route.id ledger.route_retries
        ≡ after_failures route errors permanent clock interval random n
      → is_route_due ledger route now ≡ false
  unfolding is_route_due after_failures next_route_retry
  is_route_due-after_failures ledger zero now k e = absurd (omega arith)
  is_route_due-after_failures ledger (suc n) now k e =
      let own = counted n in ground (arith, own, after_failures_attempts n)
