-- ===== src/Store/Inventory.antt =====
-- packages/cli/src/sync-store.ts: `completeInventory`, which establishes the history of a route.
use html_inbox.Common.{
  ℕ, Bool, false, not, ◌&&◌, ◌||◌, List, [], ◌∷◌, Option, none, some, Text, Dict, lookup, put, map,
  any, all, keep, length, text_eq, leb, ltb, ◌==◌, if◌then◌else◌, err, owner_quarantined,
  invalid_evidence, scope_conflict, no_delegation, generation_rollback, invalid_array, traverse,
}
use html_inbox.Json.{Json}
use html_inbox.Model.{
  OriginState, SyncRoute, RouteAuthorization, RouteState, CompleteInventory, inbound, Platform,
  is_deleted, is_live, max_records,
}
use html_inbox.Model.Parse.{parse_origin_state}
use html_inbox.Model.Routes.{parse_authorization, parse_complete_inventory, all_distinct}
use html_inbox.Model.Codec.{state_key, inventory_digest, same_immutable_descriptor}
use html_inbox.Ledger.{SyncLedger}
use html_inbox.Policy.Queue.{queue_all}
use html_inbox.Store.Monad.{M, pure, lift, ◌>>=◌, ◌>>◌, deny}
use html_inbox.Store.Commit.{mutate, commit}
use html_inbox.Store.Access.{authorize_route, authorize}
use html_inbox.Store.Apply.{Fresh, apply_locked, body_available}
use html_inbox.Store.Inbound.{read_store, inventory_key}

-- The scope of the evidence is that of the route.
unfoldable pub scope_agrees : SyncRoute → CompleteInventory → Bool
scope_agrees route evidence =
    (length evidence.scope == length route.allowed_origins)
    && all
        (λ grant.
          any
            (λ s. text_eq s.inbox_id grant.inbox_id && text_eq s.history_epoch grant.history_epoch)
            evidence.scope)
        route.allowed_origins

unfoldable pub evidence_is_bound : RouteAuthorization → SyncRoute → CompleteInventory → Bool
unfolding scope_agrees
evidence_is_bound auth route evidence =
    text_eq evidence.peer_id auth.peer_id
    && (text_eq evidence.route_id route.id
        && ((evidence.revision == route.revision) && scope_agrees route evidence))

-- A generation older than the established one, or the same with another digest.
unfoldable pub rolls_back : Option CompleteInventory → CompleteInventory → Bool
rolls_back none evidence = false
rolls_back (some previous) evidence =
    ltb evidence.generation previous.generation
    || ((evidence.generation == previous.generation)
        && not (text_eq evidence.descriptor_digest previous.descriptor_digest))

-- The route as the ledger holds it now: a fence or an activation changes the object itself.
abbrev refreshed : SyncLedger → SyncRoute → SyncRoute
refreshed ledger route = elim (lookup route.id ledger.routes) [ none ↦ route | some now ↦ now ]

-- A retained live record that the state renews.
is_retained : Dict (List ℕ) → SyncLedger → OriginState → Bool
is_retained bodies ledger state = elim (lookup (state_key state.unsigned) ledger.records) [
  | none ↦ false
  | some r ↦
      is_live r.origin.state
      && (same_immutable_descriptor r.origin.unsigned state.unsigned
          && (leb r.origin.version state.version && body_available bodies r false))
]

deny_relay : SyncRoute → M (Unit {0})
deny_relay route =
    deny
      (any (λ g. not (text_eq route.source_inbox_id g.inbox_id) && not g.complete_history)
        route.allowed_origins)
      no_delegation

-- The route becomes active under the evidence.
abbrev activated : SyncLedger → SyncRoute → CompleteInventory → SyncLedger
activated ledger route evidence = record ledger {
  routes =
      put route.id (record (refreshed ledger route) { state = RouteState.active }) ledger.routes;
  history_checkpoints = put (inventory_key route) evidence ledger.history_checkpoints;
}

module _ ⦃p : Platform⦄ where
  -- `for (const state of states) this.authorize(ledger, auth, state, direction)`
  authorize_all : SyncLedger → RouteAuthorization → List OriginState → M (Unit {0})
  authorize_all ledger auth [] = pure tt
  authorize_all ledger auth (state ∷ states) = do
    _ ← authorize ledger auth state inbound
    authorize_all ledger auth states

  -- `for (const state of states) await this.applyLocked(ledger, route, state)`
  unfoldable pub apply_each : SyncLedger → SyncRoute → Fresh → List OriginState → M SyncLedger
  apply_each ledger route fresh [] = pure ledger
  apply_each ledger route fresh (state ∷ states) = do
    outcome ← apply_locked ledger (refreshed ledger route) state fresh none
    apply_each outcome.1 route fresh states

  -- The retained live records that the states renew.
  unfoldable pub reattach : SyncLedger → SyncRoute → Fresh → List OriginState → M SyncLedger
  unfolding is_retained
  reattach ledger route fresh [] = pure ledger
  reattach ledger route fresh (state ∷ states) = do
    store ← read_store
    next ←
        (if is_retained store.bodies ledger state
          then (do
            outcome ← apply_locked ledger (refreshed ledger route) state fresh none
            pure outcome.1)
          else pure ledger)
    reattach next route fresh states

  -- The checks of `completeInventory` that need no ledger.
  unfoldable pub is_evidence_for : CompleteInventory → List OriginState → Text → Bool
  is_evidence_for evidence states expected_nonce =
      text_eq evidence.nonce expected_nonce
      && ((evidence.count == length states)
          && (text_eq evidence.descriptor_digest (inventory_digest states)
              && all_distinct (map (λ s. state_key s.unsigned) states)))

  -- Terminal states are applied before the route is active and any live record is attached again.
  unfoldable pub complete_in :
      RouteAuthorization → CompleteInventory → List OriginState → Fresh → SyncLedger → M SyncLedger
  unfolding authorize_all deny_relay
  complete_in auth evidence states fresh ledger = do
    route ← authorize_route ledger auth (some inbound)
    deny (not (evidence_is_bound auth route evidence)) scope_conflict
    deny_relay route
    authorize_all ledger auth states
    deny (rolls_back (lookup (inventory_key route) ledger.history_checkpoints) evidence)
        generation_rollback
    ended ← apply_each ledger route fresh (keep (λ s. is_deleted s.state) states)
    if ended.worker.owner_quarantined
        then (do _ ← commit ended; lift (err owner_quarantined))
        else (do
          attached ←
              reattach (activated ended route evidence) route fresh
                (keep (λ s. is_live s.state) states)
          commit (queue_all attached none))

  -- `completeInventory`
  unfoldable pub complete_inventory : Json → Json → List Json → Text → Fresh → M SyncLedger
  complete_inventory authorization completion descriptors expected_nonce fresh = do
    auth ← lift (parse_authorization authorization)
    evidence ← lift (parse_complete_inventory completion)
    deny (ltb max_records (length descriptors)) invalid_array
    states ← lift (traverse parse_origin_state descriptors)
    deny (not (is_evidence_for evidence states expected_nonce)) invalid_evidence
    mutate (complete_in auth evidence states fresh)
