-- ===== src/Store/Outbound.antt =====
-- packages/cli/src/sync-store.ts, the sending side: `activateOutbound`, `observeOutboundState` and
-- `inventory`.
use html_inbox.Common.{
  ℕ, ◌+◌, ◌≤◌, Bool, true, false, not, ◌&&◌, ◌||◌, List, [], ◌∷◌, ◌++◌, Option, none, some, Text,
  js, Dict, lookup, put, values, keys, map, find, any, all, keep, length, text_eq, text_lt, leb,
  ltb, ◌==◌, if◌then◌else◌, Result, ok, err, readiness_mismatch, not_terminal, owner_quarantined,
  inventory_unavailable, history_unavailable, invalid_receipt_binding, live_superseded,
  not_current_state, replaced_incarnation, no_obligation, invalid_update, fingerprint_changed,
  not_outbound,
}
use html_inbox.Json.{Json, str, stringify}
use html_inbox.Model.{
  OriginState, OriginGrant, SyncRoute, RouteAuthorization, RouteState, CompleteInventory, outbound,
  Platform, is_deleted, is_active, is_reconnecting,
}
use html_inbox.Model.Fields.{parse_uuid}
use html_inbox.Model.Parse.{parse_origin_state}
use html_inbox.Model.Routes.{parse_authorization, parse_complete_inventory}
use html_inbox.Model.Codec.{state_key, same_immutable_descriptor, sort_by_key}
use html_inbox.Ledger.{ManagedRecord, SyncLedger, is_complete}
use html_inbox.Ledger.Encode.{of_inventory}
use html_inbox.Policy.Grants.{can_forward_record, has_trusted_origin_history}
use html_inbox.Policy.Queue.{queue_ledger_state, queue_all}
use html_inbox.Store.Monad.{M, pure, lift, ◌>>=◌, ◌>>◌, deny, demand}
use html_inbox.Store.Commit.{mutate, commit}
use html_inbox.Store.Access.{authorize_route, authorize}
use html_inbox.Store.Apply.{fence_owner_history}

pub record InventoryReadiness : Type 0 where
  pub kind : Text
  pub evidence : Json
  pub ack_nonce : Text
  pub receiver_peer_id : Text
  pub destination_inbox_id : Text
  pub storage_incarnation : Text

-- The readiness answers the cut and the challenge that this inbox issued.
unfoldable pub readiness_fits :
    SyncRoute → InventoryReadiness → CompleteInventory → CompleteInventory → Text → Text → Bool
readiness_fits route readiness evidence issued expected_nonce expected_peer =
    text_eq readiness.kind (js "terminal-inventory-ready")
    && (text_eq readiness.ack_nonce expected_nonce
        && (text_eq readiness.receiver_peer_id expected_peer
            && (text_eq route.peer_id expected_peer
                && (text_eq readiness.destination_inbox_id route.destination_inbox_id
                    && (text_eq evidence.route_id route.id
                        && ((evidence.revision == route.revision)
                            && text_eq (stringify (of_inventory evidence))
                                (stringify (of_inventory issued))))))))

-- A grant of the route whose origin this inbox cannot vouch for.
unfoldable pub lacks_history : SyncLedger → OriginGrant → Bool
lacks_history ledger grant =
    not (text_eq grant.inbox_id ledger.inbox_id)
    && not (has_trusted_origin_history ledger grant.inbox_id grant.history_epoch)

unfoldable pub has_grant : SyncRoute → ManagedRecord → Bool
has_grant route r =
    any
      (λ g.
        text_eq g.inbox_id r.origin.origin_inbox_id
        && text_eq g.history_epoch r.origin.history_epoch)
      route.allowed_origins

-- The states of a complete inventory; a record in scope that may not be sent is a gap.
unfoldable pub inventory_states :
    SyncLedger → SyncRoute → List ManagedRecord → Result (List OriginState)
unfolding has_grant
inventory_states ledger route [] = ok []
inventory_states ledger route (r ∷ rs) =
    let rest = inventory_states ledger route rs in
    if not (has_grant route r)
    then rest
    else if can_forward_record ledger route r true
    then html_inbox.Common.◌>>=◌ rest (λ states. ok (r.origin ∷ states))
    else err history_unavailable

pub record Inventory : Type 0 where
  pub generation : ℕ
  pub states : List OriginState
  pub scope : List OriginGrant

-- The route cannot offer a complete inventory.
unfoldable pub inventory_is_blocked : SyncLedger → SyncRoute → Bool
inventory_is_blocked ledger route =
    not (is_complete ledger.migration.phase)
    || (ledger.worker.owner_quarantined
        || not (is_active route.state || is_reconnecting route.state))

module _ ⦃p : Platform⦄ where
  unfoldable pub activate_in :
      RouteAuthorization
      → InventoryReadiness
      → CompleteInventory
      → CompleteInventory
      → Text
      → Text
      → SyncLedger
      → M SyncLedger
  activate_in auth readiness evidence issued expected_nonce expected_peer ledger = do
    route ← authorize_route ledger auth (some outbound)
    deny (not (readiness_fits route readiness evidence issued expected_nonce expected_peer))
        readiness_mismatch
    let ready = record route { state = RouteState.active; last_error = none }
    commit (queue_all (record ledger { routes = put route.id ready ledger.routes }) (some route.id))

  -- `activateOutbound`
  unfoldable pub activate_outbound :
      Json → InventoryReadiness → CompleteInventory → Text → Text → M SyncLedger
  activate_outbound authorization readiness issued expected_nonce expected_peer = do
    auth ← lift (parse_authorization authorization)
    evidence ← lift (parse_complete_inventory readiness.evidence)
    _ ← lift (parse_uuid (str readiness.storage_incarnation))
    mutate (activate_in auth readiness evidence issued expected_nonce expected_peer)

  -- The body of `observeOutboundState`; the answer says that the owner's history was fenced.
  unfoldable pub observe_in : RouteAuthorization → OriginState → SyncLedger → M Bool
  observe_in auth state ledger = do
    _ ← authorize ledger auth state outbound
    let key = state_key state.unsigned
    r ← demand (lookup key ledger.records) not_terminal
    deny
        (not (same_immutable_descriptor r.origin.unsigned state.unsigned)
          || not (is_deleted state.state))
        not_terminal
    let taken = record ledger { records = put key (record r { origin = state }) ledger.records }
    if is_deleted r.origin.state && leb state.version r.origin.version
        then pure false
        else if text_eq r.origin.origin_inbox_id ledger.inbox_id
            && leb ledger.next_origin_version state.version
        then (do _ ← commit (fence_owner_history taken); pure true)
        else (do _ ← commit (queue_ledger_state taken key none false); pure false)

  -- `observeOutboundState`
  unfoldable pub observe_outbound_state : Json → Json → M (Unit {0})
  observe_outbound_state authorization descriptor = do
    auth ← lift (parse_authorization authorization)
    state ← lift (parse_origin_state descriptor)
    fenced ← mutate (observe_in auth state)
    deny fenced owner_quarantined

  unfoldable pub inventory_in : RouteAuthorization → SyncLedger → M Inventory
  unfolding lacks_history
  inventory_in auth ledger = do
    route ← authorize_route ledger auth (some outbound)
    deny (inventory_is_blocked ledger route) inventory_unavailable
    deny (any (lacks_history ledger) route.allowed_origins) history_unavailable
    states ← lift (inventory_states ledger route (values ledger.records))
    pure (record {
      generation = ledger.generation;
      states = sort_by_key states;
      scope = route.allowed_origins;
    })

  -- `inventory`
  unfoldable pub inventory : Json → M Inventory
  inventory authorization = do
    auth ← lift (parse_authorization authorization)
    mutate (inventory_in auth)
