-- ===== src/Store/Committed.antt =====
-- What a commit (packages/cli/src/sync-store.ts, `commit`) leaves.
use html_inbox.Common.{
  ℕ, ◌+◌, ◌≤◌, ◌≡◌, inl, inr, refl, false, List, [], ◌∷◌, Option, some, Text, values, map, All,
  text_eq_iff, Result-cases, ok, >>=-eq-ok, reject-eq-ok, arith,
}
use html_inbox.Json.{stringify, byte_length}
use html_inbox.Model.{Platform, SyncRoute, max_ledger_bytes}
use html_inbox.Ledger.{SyncLedger}
use html_inbox.Ledger.Encode.{of_ledger}
use html_inbox.Ledger.Load.{parse_ledger}
use html_inbox.Store.{Store, Attempt}
use html_inbox.Store.Commit.{
  commit, is_committable, advance, written, invalidate_routes, invalidate_attempts,
  invalidate_attempt, live_revision, reserve_terminal_space,
}

-- An attempt of the route goes on only while the route is live, in its present revision.
abbrev pub IsCurrentAttempt : SyncRoute → Attempt → Type 0
IsCurrentAttempt route a =
    a.route_id ≡ route.id → a.aborted ≡ false → live_revision route ≡ some a.revision

invalidate_attempt-IsCurrentAttempt :
    (route : SyncRoute) (a : Attempt)
    → IsCurrentAttempt route (invalidate_attempt route.id (live_revision route) a)
unfolding invalidate_attempt
invalidate_attempt-IsCurrentAttempt route a same live =
    ground (arith, text_eq_iff a.route_id route.id)

-- Aborting the attempts of one more route keeps what holds of the others.
invalidate_attempt_keeps :
    (route : SyncRoute) (id : Text) (current : Option ℕ) (a : Attempt)
    → IsCurrentAttempt route a
    → IsCurrentAttempt route (invalidate_attempt id current a)
unfolding invalidate_attempt
invalidate_attempt_keeps route id current a h same live = ground arith

invalidate_attempts_keeps :
    (route : SyncRoute) (id : Text) (current : Option ℕ) (attempts : List Attempt)
    → All (IsCurrentAttempt route) attempts
    → All (IsCurrentAttempt route) (map (invalidate_attempt id current) attempts)
invalidate_attempts_keeps route id current [] h = tt
invalidate_attempts_keeps route id current (a ∷ more) (h, hs) = (
  invalidate_attempt_keeps route id current a h,
  invalidate_attempts_keeps route id current more hs,
)

invalidate_routes_keeps :
    (route : SyncRoute) (routes : List SyncRoute) (store : Store)
    → All (IsCurrentAttempt route) store.attempts
    → All (IsCurrentAttempt route) (invalidate_routes routes store).attempts
unfolding invalidate_routes invalidate_attempts
invalidate_routes_keeps route [] store h = h
invalidate_routes_keeps route (r ∷ routes) store h =
    invalidate_routes_keeps route routes (invalidate_attempts r.id (live_revision r) store)
      (invalidate_attempts_keeps route r.id (live_revision r) store.attempts h)

invalidated :
    (route : SyncRoute) (attempts : List Attempt)
    → All
        (IsCurrentAttempt route)
        (map (invalidate_attempt route.id (live_revision route)) attempts)
invalidated route [] = tt
invalidated route (a ∷ more) = (invalidate_attempt-IsCurrentAttempt route a, invalidated route more)

invalidate_routes-IsCurrentAttempt :
    (routes : List SyncRoute) (store : Store)
    → All (λ route. All (IsCurrentAttempt route) (invalidate_routes routes store).attempts) routes
unfolding invalidate_routes invalidate_attempts
invalidate_routes-IsCurrentAttempt [] store = tt
invalidate_routes-IsCurrentAttempt (r ∷ routes) store =
    let next = invalidate_attempts r.id (live_revision r) store in
    (
      invalidate_routes_keeps r routes next (invalidated r store.attempts),
      invalidate_routes-IsCurrentAttempt routes next,
    )

invalidate_routes-disk :
    (routes : List SyncRoute) (store : Store) → (invalidate_routes routes store).disk ≡ store.disk
unfolding invalidate_routes invalidate_attempts
invalidate_routes-disk [] store = refl
invalidate_routes-disk (r ∷ routes) store =
    invalidate_routes-disk routes (invalidate_attempts r.id (live_revision r) store)

module _ ⦃p : Platform⦄ where
  pub record IsCommitted (ledger result : SyncLedger) (after : Store) : Type 0 where
    pub on_disk : after.disk ≡ result
    pub next : result ≡ record ledger { generation = ledger.generation + 1 }
    pub readable : (again : SyncLedger) × (parse_ledger (of_ledger result) ≡ ok again)
    pub reserved :
        byte_length (stringify (of_ledger result)) + reserve_terminal_space result
        ≤ max_ledger_bytes
    pub attempts : All (λ route. All (IsCurrentAttempt route) after.attempts) (values result.routes)

  is_committable-eq-ok :
      (ledger : SyncLedger) {u : Unit {0}}
      → is_committable ledger ≡ ok u
      → ((again : SyncLedger) × (parse_ledger (of_ledger ledger) ≡ ok again))
        × (byte_length (stringify (of_ledger ledger)) + reserve_terminal_space ledger
            ≤ max_ledger_bytes)
  unfolding is_committable
  is_committable-eq-ok ledger h =
      let (again, parsed, fits) = >>=-eq-ok (parse_ledger (of_ledger ledger)) _ h in
      let small = reject-eq-ok _ _ fits in ((again, parsed), ground arith)

  -- A commit that succeeds, taken apart.
  pub commit-eq-ok :
      (ledger result : SyncLedger) (before after : Store)
      → commit ledger before ≡ (ok result, after)
      → (u : Unit {0}) × (is_committable (advance ledger) ≡ ok u)
        × (result ≡ advance ledger)
        × (after ≡ written (advance ledger) before)
  unfolding commit
  commit-eq-ok ledger result before after h =
      elim (Result-cases (is_committable (advance ledger))) [
        | inl (u, fits) ↦ (u, fits, ground arith, ground arith)
        | inr (e, fails) ↦ absurd (ground arith)
      ]

  written-IsCommitted :
      (ledger : SyncLedger) (before : Store) {u : Unit {0}}
      → is_committable (advance ledger) ≡ ok u
      → IsCommitted ledger (advance ledger) (written (advance ledger) before)
  written-IsCommitted ledger before fits =
      let (readable, reserved) = is_committable-eq-ok (advance ledger) fits in
      let routes = values ledger.routes in
      let store = record before { disk = advance ledger } in
      record {
        on_disk = invalidate_routes-disk routes store;
        next = refl;
        readable = readable;
        reserved = reserved;
        attempts = invalidate_routes-IsCurrentAttempt routes store;
      }

  -- A commit that succeeds puts the ledger on disk with the next generation. What is on disk can be
  -- read again, fits with the space reserved for deletions, and no attempt goes on for a route that
  -- is blocked, detached or in another revision.
  pub commit-IsCommitted :
      (ledger result : SyncLedger) (before after : Store)
      → commit ledger before ≡ (ok result, after)
      → IsCommitted ledger result after
  commit-IsCommitted ledger result before after h =
      let (u, fits, r, w) = commit-eq-ok ledger result before after h in
      rw (r, w) (written-IsCommitted ledger before fits)
