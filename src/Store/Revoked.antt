-- ===== src/Store/Revoked.antt =====
-- Revoking a route.
use html_inbox.Common.{
  ℕ, ◌≡◌, ◌≢◌, refl, sym, ap, subst, ◌∙◌, true, not, List, [], ◌∷◌, Option, none, some, Text,
  lookup, All, lookup-All, lookup-put_self, ◌==◌, ok, stale_revision, arith,
}
use html_inbox.Model.{Platform, SyncRoute, RouteState, RouteAuthorization, Direction}
use html_inbox.Ledger.{SyncLedger}
use html_inbox.Policy.Fence.{fence_ledger_route, fenced_route}
use html_inbox.Policy.Queue.{queue_all}
use html_inbox.Policy.Queued.{queue_all-SameButOutbox}
use html_inbox.Store.{Store, Attempt}
use html_inbox.Store.Monad.{>>=-eq-ok, deny, demand}
use html_inbox.Store.Commit.{commit, advance}
use html_inbox.Store.Committed.{commit-IsCommitted, IsCurrentAttempt}
use html_inbox.Store.Access.{authorize_route}
use html_inbox.Store.Authority.{authorize_route_sound}
use html_inbox.Store.Routes.{revoke_in}

-- No attempt of the route goes on.
abbrev pub IsAborted : Text → Attempt → Type 0
IsAborted route_id a = a.route_id ≡ route_id → a.aborted ≡ true

IsAborted-detached :
    (route : SyncRoute) (a : Attempt)
    → route.state ≡ RouteState.detached
    → IsCurrentAttempt route a
    → IsAborted route.id a
IsAborted-detached route a d h same = ground (arith, h same)

detached_differs :
    (r fenced : SyncRoute)
    → some r ≡ some fenced
    → fenced.state ≡ RouteState.detached
    → ¬ (r.state ≢ RouteState.detached)
detached_differs r fenced e d h = h (ground arith)

All-IsAborted :
    (route : SyncRoute) (attempts : List Attempt)
    → route.state ≡ RouteState.detached
    → All (IsCurrentAttempt route) attempts
    → All (IsAborted route.id) attempts
All-IsAborted route [] d h = tt
All-IsAborted route (a ∷ more) d (h, hs) =
    (IsAborted-detached route a d h, All-IsAborted route more d hs)

module _ ⦃p : Platform⦄ where
  pub record IsRevoked (route_id : Text) (result : SyncLedger) (after : Store) : Type 0 where
    pub on_disk : after.disk ≡ result
    pub refused :
        (auth : RouteAuthorization) (direction : Option Direction) (route : SyncRoute)
        (store later : Store)
        → auth.route_id ≡ route_id
        → authorize_route result auth direction store ≢ (ok route, later)
    pub aborted : All (IsAborted route_id) after.attempts

  revoked_route :
      (ledger : SyncLedger) (route : SyncRoute)
      → lookup route.id
          (advance
            (queue_all (fence_ledger_route ledger route RouteState.detached none) none)).routes
        ≡ some (fenced_route route RouteState.detached none)
  unfolding fence_ledger_route
  revoked_route ledger route =
      let fenced = fence_ledger_route ledger route RouteState.detached none in
      ap (λ l. lookup route.id l.routes) (queue_all-SameButOutbox fenced none)
      ∙ lookup-put_self route.id (fenced_route route RouteState.detached none) ledger.routes

  fenced-IsRevoked :
      (ledger : SyncLedger) (route : SyncRoute) (result : SyncLedger) (before after : Store)
      → commit (queue_all (fence_ledger_route ledger route RouteState.detached none) none) before
        ≡ (ok result, after)
      → IsRevoked route.id result after
  unfolding fenced_route
  fenced-IsRevoked ledger route result before after h =
      let done =
        commit-IsCommitted
          (queue_all (fence_ledger_route ledger route RouteState.detached none) none) result before
          after h in
      let gone : lookup route.id result.routes
          ≡ some (fenced_route route RouteState.detached none) =
        ap (λ l. lookup route.id l.routes) done.next ∙ revoked_route ledger route in
      record {
        on_disk = done.on_disk;
        refused = λ auth direction r store later e k.
            let (granted, _) = authorize_route_sound result auth direction r store later k in
            detached_differs r (fenced_route route RouteState.detached none)
              (sym granted.known ∙ ap (λ id. lookup id result.routes) e ∙ gone) refl
              granted.not_detached;
        aborted = All-IsAborted (fenced_route route RouteState.detached none) after.attempts refl (
            lookup-All (λ q. All (IsCurrentAttempt q) after.attempts) route.id result.routes
              (fenced_route route RouteState.detached none) done.attempts gone);
      }

  -- Once a route is revoked, the ledger on disk grants no authorization for it in any revision, and no
  -- attempt of the route goes on.
  pub revoke_in-IsRevoked :
      (route_id : Text) (revision : ℕ) (ledger result : SyncLedger) (before after : Store)
      (route : SyncRoute)
      → lookup route_id ledger.routes ≡ some route
      → route.id ≡ route_id
      → revoke_in route_id revision ledger before ≡ (ok result, after)
      → IsRevoked route_id result after
  unfolding revoke_in
  revoke_in-IsRevoked route_id revision ledger result before after route found same h =
      let (r, s1, e1, h1) =
        >>=-eq-ok (demand (lookup route_id ledger.routes) stale_revision) _ before after h in
      let (_, s2, e2, h2) =
        >>=-eq-ok (deny (not (r.revision == revision)) stale_revision) _ s1 after h1 in
      let is_route : r ≡ route = ground arith in
      subst (λ id. IsRevoked id result after) (ap (λ q. q.id) is_route ∙ same)
        (fenced-IsRevoked ledger r result s2 after h2)
