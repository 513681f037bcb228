-- ===== src/Store/Admitted.antt =====
-- What an admission rests on.
use html_inbox.Common.{
  ◌≡◌, refl, sym, subst, Bool, true, false, not, ◌&&◌, Option, none, some, lookup, text_eq_iff, ok,
  fingerprint_changed, arith, inl, inr, Option-cases,
}
use html_inbox.Model.{OriginState, SyncRoute, RouteAuthorization, Platform, outbound}
use html_inbox.Model.Codec.{state_key, state_fingerprint}
use html_inbox.Ledger.{ManagedRecord, SyncLedger}
use html_inbox.Policy.Grants.{can_forward_record}
use html_inbox.Store.{Store}
use html_inbox.Store.Monad.{>>=-eq-ok, branch-eq-ok, deny}
use html_inbox.Store.Access.{authorize_route, authorize}
use html_inbox.Store.Authority.{IsAuthorized, authorize_route_sound}
use html_inbox.Store.Attempts.{admit_in, admit_on, check_expected, is_expected, refuse_paused}

deny-not :
    (b : Bool) (s t : Store) {u : Unit {0}}
    → deny (not b) fingerprint_changed s ≡ (ok u, t)
    → b ≡ true
deny-not true s t h = refl
deny-not false s t h = cc

module _ ⦃p : Platform⦄ where
  -- The state is the one on record, and may be sent.
  pub record IsCurrentState (ledger : SyncLedger) (route : SyncRoute) (state : OriginState)
      : Type 0 where
    pub held : ManagedRecord
    pub found : lookup (state_key state.unsigned) ledger.records ≡ some held
    pub unchanged : state_fingerprint held.origin ≡ state_fingerprint state
    pub sendable : can_forward_record ledger route held false ≡ true

  -- The admission of a message, which may carry a state.
  pub record IsAdmitted (ledger : SyncLedger) (auth : RouteAuthorization)
      (expected : Option OriginState) (locally_initiated : Bool) (route : SyncRoute) : Type 0 where
    pub authorized : IsAuthorized ledger auth none route
    pub not_paused : locally_initiated ≡ true → ledger.worker.retry_paused ≡ false
    pub current : (state : OriginState) → expected ≡ some state → IsCurrentState ledger route state

  is_expected_sound :
      (ledger : SyncLedger) (route : SyncRoute) (state : OriginState)
      → is_expected ledger route state ≡ true
      → (held : ManagedRecord) × (lookup (state_key state.unsigned) ledger.records ≡ some held)
        × (state_fingerprint held.origin ≡ state_fingerprint state)
        × (can_forward_record ledger route held false ≡ true)
  unfolding is_expected
  is_expected_sound ledger route state h =
      elim (Option-cases (lookup (state_key state.unsigned) ledger.records)) [
        | inl absent ↦ absurd (ground arith)
        | inr (held, found) ↦
            let print = text_eq_iff (state_fingerprint held.origin) (state_fingerprint state) in
            (held, found, ground (arith, print), ground (arith, print))
      ]

  check_expected_sound :
      (ledger : SyncLedger) (auth : RouteAuthorization) (route : SyncRoute)
      (expected : Option OriginState) (before after : Store) {u : Unit {0}}
      → check_expected ledger auth route expected before ≡ (ok u, after)
      → (state : OriginState) → expected ≡ some state
      → is_expected ledger route state ≡ true
  unfolding check_expected
  check_expected_sound ledger auth route none before after h state e = cc
  check_expected_sound ledger auth route (some own) before after h state e =
      let (_, s1, _, k) = >>=-eq-ok (authorize ledger auth own outbound) _ before after h in
      let checked = deny-not (is_expected ledger route own) s1 after k in
      let same : own ≡ state = ground arith in
      subst (λ x. is_expected ledger route x ≡ true) same checked

  admit_on_sound :
      (ledger : SyncLedger) (auth : RouteAuthorization) (expected : Option OriginState)
      (locally_initiated : Bool) (route given : SyncRoute) (before after : Store)
      → admit_on auth expected locally_initiated ledger route before ≡ (ok given, after)
      → (given ≡ route)
        × ((locally_initiated && ledger.worker.retry_paused) ≡ false)
        × ((state : OriginState) → expected ≡ some state → is_expected ledger route state ≡ true)
  unfolding admit_on refuse_paused
  admit_on_sound ledger auth expected locally_initiated route given before after h =
      elim (branch-eq-ok (locally_initiated && ledger.worker.retry_paused) _ _ before after h) [
        | inl (_, k) ↦ absurd (ground arith)
        | inr (going, k) ↦
            let (_, s1, e, k1) =
              >>=-eq-ok (check_expected ledger auth route expected) _ before after k in
            (ground arith, going, check_expected_sound ledger auth route expected before s1 e)
      ]

  current_state :
      (ledger : SyncLedger) (route : SyncRoute) (state : OriginState)
      → is_expected ledger route state ≡ true
      → IsCurrentState ledger route state
  current_state ledger route state e =
      let (held, found, unchanged, sendable) = is_expected_sound ledger route state e in
      record { held = held; found = found; unchanged = unchanged; sendable = sendable }

  -- A message is admitted only on an authorized route. One that this inbox has begun is admitted only while
  -- its retries are not paused, and one that carries a state only if it is still the record's and may be
  -- sent on the route.
  pub admit_in-IsAdmitted :
      (ledger : SyncLedger) (auth : RouteAuthorization) (expected : Option OriginState)
      (locally_initiated : Bool) (route : SyncRoute) (before after : Store)
      → admit_in auth expected locally_initiated ledger before ≡ (ok route, after)
      → IsAdmitted ledger auth expected locally_initiated route
  unfolding admit_in
  admit_in-IsAdmitted ledger auth expected locally_initiated route before after h =
      let (r, s1, e1, h1) = >>=-eq-ok (authorize_route ledger auth none) _ before after h in
      let (granted, _) = authorize_route_sound ledger auth none r before s1 e1 in
      let (same, going, checked) =
        admit_on_sound ledger auth expected locally_initiated r route s1 after h1 in
      subst (λ q. IsAdmitted ledger auth expected locally_initiated q) (sym same)
        (record {
          authorized = granted;
          not_paused = λ own. ground arith;
          current = λ state e. current_state ledger r state (checked state e);
        })
