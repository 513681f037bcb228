-- ===== src/Store/Routes.antt =====
-- packages/cli/src/sync-store.ts: `configureRoute`, `revokeRoute`, `retry`, `recordRouteRun` and
-- `setRouteError`.
use html_inbox.Common.{
  ℕ, ◌+◌, ◌≤◌, Bool, true, false, not, ◌&&◌, ◌||◌, List, [], ◌∷◌, ◌++◌, Option, none, some, Text,
  js, Dict, lookup, put, remove, values, keys, map, map_values, find, any, length, text_eq, leb,
  ltb, ◌==◌, if◌then◌else◌, Result, ok, err, wrong_local_inbox, revision_not_advanced,
  route_rebound, key_transition, stale_revision, invalid_run,
}
use html_inbox.Json.{Json, num, str}
use html_inbox.Model.{
  OriginGrant, SyncRoute, RouteAuthorization, RouteState, Platform, same_direction, is_detached,
}
use html_inbox.Model.Fields.{parse_uuid, parse_integer_from}
use html_inbox.Model.Routes.{parse_route, parse_authorization}
use html_inbox.Ledger.{
  OutboxEntry, pending, RouteRetryState, Runtime, SyncLedger, is_blocked, is_pending,
}
use html_inbox.Ledger.Bindings.{local_inbox}
use html_inbox.Policy.Fence.{detach_ledger_route, fence_ledger_route}
use html_inbox.Policy.Queue.{queue_all}
use html_inbox.Policy.Retry.{Fraction, next_route_retry}
use html_inbox.Store.Monad.{M, pure, lift, ◌>>=◌, ◌>>◌, deny, demand}
use html_inbox.Store.Commit.{mutate, commit}
use html_inbox.Store.Access.{authorize_route, assert_owner_writable}

-- A revision advances by one, from nothing to 1.
unfoldable pub revision_advances : Option SyncRoute → ℕ → Bool
revision_advances none revision = revision == 1
revision_advances (some previous) revision = revision == previous.revision + 1

unfoldable pub keeps_identity : Option SyncRoute → SyncRoute → Bool
keeps_identity none route = true
keeps_identity (some previous) route =
    text_eq route.peer_id previous.peer_id
    && (same_direction route.direction previous.direction
        && (text_eq route.source_inbox_id previous.source_inbox_id
            && text_eq route.destination_inbox_id previous.destination_inbox_id))

detach_previous : SyncLedger → Option SyncRoute → SyncLedger
detach_previous ledger none = ledger
detach_previous ledger (some previous) = detach_ledger_route ledger previous.id

-- The loop over `route.allowedOrigins`: a new origin is pinned, a known one must not change.
unfoldable pub pin_known :
    List OriginGrant → OriginGrant → Option OriginGrant → Result (List OriginGrant)
pin_known pinned grant none =
    ok (pinned ++ record grant { complete_history = false; redistribute = false } ∷ [])
pin_known pinned grant (some known) =
    if text_eq known.history_epoch grant.history_epoch && text_eq known.public_key grant.public_key
    then ok pinned
    else err key_transition

unfoldable pub pin_origins : List OriginGrant → List OriginGrant → Result (List OriginGrant)
unfolding pin_known
pin_origins pinned [] = ok pinned
pin_origins pinned (grant ∷ grants) =
    html_inbox.Common.◌>>=◌
      (pin_known pinned grant (find (λ key. text_eq key.inbox_id grant.inbox_id) pinned))
      (λ next. pin_origins next grants)

-- The state in which a configured route starts.
abbrev pub configured : SyncRoute → SyncRoute
configured route = record route {
  state = if is_detached route.state then RouteState.detached else RouteState.reconnecting;
}

-- A blocked or pending obligation of the route, as `retry` leaves it.
unfoldable pub retried_entry : SyncRoute → OutboxEntry → OutboxEntry
retried_entry route e =
    if text_eq e.route_id route.id
      && ((e.revision == route.revision) && (is_blocked e.disposition || is_pending e.disposition))
    then record e { attempts = 0; next_attempt_at = 0; last_error = none; disposition = pending }
    else e

abbrev is_blocked_retry : Option RouteRetryState → Bool
is_blocked_retry none = false
is_blocked_retry (some previous) = previous.blocked

abbrev has_error : Option Text → Bool
has_error none = false
has_error (some error) = true

-- `ledger.runtime?.config.timings.reconcileMs ?? SYNC_DEFAULTS.reconcileMs`
abbrev reconcile_interval : Option Runtime → ℕ
reconcile_interval none = 30000
reconcile_interval (some r) = r.config.timings.reconcile_ms

-- A message is null or has 1 to 2048 units.
unfoldable pub is_error_text : Option Text → Bool
is_error_text none = true
is_error_text (some error) = leb 1 (length error) && leb (length error) 2048

module _ ⦃p : Platform⦄ where
  -- The body of `configureRoute`.
  unfoldable pub configure_in : SyncRoute → SyncLedger → M SyncRoute
  unfolding detach_previous
  configure_in route ledger = do
    assert_owner_writable ledger
    deny (not (text_eq (local_inbox route) ledger.inbox_id)) wrong_local_inbox
    let previous = lookup route.id ledger.routes
    deny (not (revision_advances previous route.revision)) revision_not_advanced
    deny (not (keeps_identity previous route)) route_rebound
    let detached_ledger = detach_previous ledger previous
    pinned ← lift (pin_origins ledger.origin_keys route.allowed_origins)
    let placed = record detached_ledger {
      origin_keys = pinned;
      routes = put route.id (configured route) ledger.routes;
      route_retries = remove route.id ledger.route_retries;
    }
    _ ← commit (queue_all placed none)
    pure (configured route)

  -- `configureRoute`
  unfoldable pub configure_route : Json → M SyncRoute
  configure_route value = do route ← lift (parse_route value); mutate (configure_in route)

  -- The body of `revokeRoute`.
  unfoldable pub revoke_in : Text → ℕ → SyncLedger → M SyncLedger
  revoke_in route_id revision ledger = do
    route ← demand (lookup route_id ledger.routes) stale_revision
    deny (not (route.revision == revision)) stale_revision
    commit (queue_all (fence_ledger_route ledger route RouteState.detached none) none)

  -- `revokeRoute`
  unfoldable pub revoke_route : Text → ℕ → M SyncLedger
  revoke_route route_id revision = do
    _ ← lift (parse_uuid (str route_id))
    _ ← lift (parse_integer_from 1 (num revision))
    mutate (revoke_in route_id revision)

  -- The body of `retry`.
  unfoldable pub retry_in : RouteAuthorization → SyncLedger → M SyncLedger
  unfolding retried_entry
  retry_in auth ledger = do
    route ← authorize_route ledger auth none
    let cleared = record route { last_error = none }
    let reset = record ledger {
      routes = put route.id cleared ledger.routes;
      route_retries = remove route.id ledger.route_retries;
      outbox = map_values (retried_entry route) ledger.outbox;
    }
    commit (queue_all reset (some route.id))

  unfoldable pub retry : Json → M SyncLedger
  retry authorization = do auth ← lift (parse_authorization authorization); mutate (retry_in auth)

  -- The body of `recordRouteRun`; a blocked schedule stays as it is until the route succeeds.
  unfoldable pub record_run_in :
      RouteAuthorization → Option Text → Bool → ℕ → Fraction → SyncLedger → M SyncLedger
  record_run_in auth error blocked now random ledger = do
    route ← authorize_route ledger auth none
    let previous = lookup route.id ledger.route_retries
    if is_blocked_retry previous && has_error error
        then pure ledger
        else commit (record ledger {
          route_retries =
              put route.id
                (next_route_retry route previous error blocked now
                  (reconcile_interval ledger.runtime) random)
                ledger.route_retries;
        })

  -- `recordRouteRun`; `random` is a number from 0 to 1.
  unfoldable pub record_route_run : Json → Option Text → Bool → ℕ → Fraction → M SyncLedger
  record_route_run authorization error blocked now random = do
    auth ← lift (parse_authorization authorization)
    deny (not (is_error_text error) || (ltb random.den random.num || (random.den == 0))) invalid_run
    mutate (record_run_in auth error blocked now random)

  unfoldable pub set_route_error : Json → Option Text → M SyncLedger
  set_route_error authorization last_error = do
    auth ← lift (parse_authorization authorization)
    deny (not (is_error_text last_error)) invalid_run
    mutate (λ ledger. do
      route ← authorize_route ledger auth none
      commit (record ledger {
        routes = put route.id (record route { last_error = last_error }) ledger.routes;
      }))
