-- ===== src/Store/Access.antt =====
-- packages/cli/src/sync-store.ts: `authorizeRoute`, `authorize` and the owner's checks.
use html_inbox.Common.{
  ℕ, ◌+◌, Bool, false, not, ◌&&◌, ◌||◌, Option, none, some, Text, lookup, keys, values, map, any,
  length, text_eq, leb, ◌==◌, if◌then◌else◌, err, communication_blocked, revoked_authorization,
  origin_out_of_scope, owner_mutation_blocked, capacity_exceeded, invalid_integer,
}
use html_inbox.Model.{
  OriginState, SyncRoute, RouteAuthorization, Direction, Platform, same_direction, is_detached,
  is_blocked, max_records, max_safe_integer,
}
use html_inbox.Model.Codec.{verify_origin_state}
use html_inbox.Ledger.{SyncLedger, is_complete}
use html_inbox.Policy.Grants.{pinned_state_grant}
use html_inbox.Store.Monad.{M, pure, lift, ◌>>=◌, ◌>>◌, deny, demand}
use html_inbox.Store.Commit.{invalidate_attempts, live_revision}

abbrev pub is_fenced : SyncRoute → Bool
is_fenced route = is_detached route.state || is_blocked route.state

abbrev direction_differs : Option Direction → SyncRoute → Bool
direction_differs none route = false
direction_differs (some d) route = not (same_direction route.direction d)

-- The route that the authorization names, if it is still the one that was authorized.
unfoldable pub is_current_route : RouteAuthorization → SyncRoute → Bool
is_current_route auth route = (route.revision == auth.revision) && not (is_fenced route)

unfoldable pub is_bound : RouteAuthorization → Option Direction → SyncRoute → Bool
is_bound auth direction route =
    text_eq route.peer_id auth.peer_id
    && (text_eq route.source_inbox_id auth.source_inbox_id
        && (text_eq route.destination_inbox_id auth.destination_inbox_id
            && not (direction_differs direction route)))

-- Refusing a stale authorization also aborts the attempts that rest on it.
unfoldable pub refuse : RouteAuthorization → Option ℕ → M SyncRoute
refuse auth current store =
    (err revoked_authorization, invalidate_attempts auth.route_id current store)

unfoldable pub select_route : RouteAuthorization → Option Direction → Option SyncRoute → M SyncRoute
unfolding refuse is_current_route is_bound
select_route auth direction none = refuse auth none
select_route auth direction (some route) =
    if not (is_current_route auth route)
    then refuse auth (live_revision route)
    else if is_bound auth direction route
    then pure route
    else lift (err revoked_authorization)

-- `authorizeRoute`
unfoldable pub authorize_route : SyncLedger → RouteAuthorization → Option Direction → M SyncRoute
unfolding select_route
authorize_route ledger auth direction =
    if ledger.worker.owner_quarantined || not (is_complete ledger.migration.phase)
    then lift (err communication_blocked)
    else select_route auth direction (lookup auth.route_id ledger.routes)

-- `assertOwnerWritable`
unfoldable pub assert_owner_writable : SyncLedger → M (Unit {0})
assert_owner_writable ledger =
    deny (ledger.worker.owner_quarantined || not (is_complete ledger.migration.phase))
      owner_mutation_blocked

-- `assertCapacity`
unfoldable pub assert_capacity : SyncLedger → M (Unit {0})
assert_capacity ledger = deny (leb max_records (length (keys ledger.records))) capacity_exceeded

-- `allocateVersion`: the version, and the ledger with its counter advanced.
unfoldable pub allocate_version : SyncLedger → M (ℕ × SyncLedger)
allocate_version ledger = do
  deny
      (not
        (leb 1 ledger.next_origin_version && leb (ledger.next_origin_version + 1) max_safe_integer))
      invalid_integer
  pure (
    ledger.next_origin_version,
    record ledger { next_origin_version = ledger.next_origin_version + 1 },
  )

-- `allocateLocalId`: the preferred identity if it is free. `fresh` is the first random UUID that is.
unfoldable pub allocate_local_id : SyncLedger → Option Text → Text → Text
allocate_local_id ledger none fresh = fresh
allocate_local_id ledger (some preferred) fresh =
    if any (text_eq preferred) (map (λ r. r.local_id) (values ledger.records))
    then fresh
    else preferred

module _ ⦃p : Platform⦄ where
  -- `authorize`
  unfoldable pub authorize : SyncLedger → RouteAuthorization → OriginState → Direction → M SyncRoute
  authorize ledger auth state direction = do
    route ← authorize_route ledger auth (some direction)
    grant ← demand (pinned_state_grant ledger route state) origin_out_of_scope
    lift (verify_origin_state state grant.public_key)
    pure route
