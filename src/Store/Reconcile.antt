-- ===== src/Store/Reconcile.antt =====
-- packages/cli/src/sync-store.ts: `completeReconciliation` and `holdingsCut`.
use html_inbox.Common.{
  ℕ, Bool, true, false, not, ◌&&◌, ◌||◌, List, [], ◌∷◌, Option, none, some, Text, Dict, lookup, put,
  any, length, text_eq, leb, ltb, ◌==◌, if◌then◌else◌, missing_cut, page_limit, origin_out_of_scope,
  incomplete_inventory, traverse,
}
use html_inbox.Json.{Json, str}
use html_inbox.Json.Keys.{canonical_key}
use html_inbox.Model.{
  OriginState, SyncRoute, RouteAuthorization, Scope, CompleteInventory, inbound, Platform,
  is_deleted, manifest_page,
}
use html_inbox.Model.Fields.{parse_uuid, parse_safe_id}
use html_inbox.Model.Parse.{parse_origin_state}
use html_inbox.Model.Routes.{parse_authorization, parse_complete_inventory}
use html_inbox.Model.Codec.{state_key, inventory_digest, same_immutable_descriptor}
use html_inbox.Ledger.{ManagedRecord, Contribution, DurableReceipt, SyncLedger, is_attached}
use html_inbox.Policy.Grants.{pinned_origin_grant, current_custody_receipt, is_some}
use html_inbox.Store.{Store}
use html_inbox.Store.Monad.{M, pure, lift, ◌>>=◌, ◌>>◌, deny}
use html_inbox.Store.Commit.{mutate, commit}
use html_inbox.Store.Access.{authorize_route, authorize}
use html_inbox.Store.Apply.{body_available}
use html_inbox.Store.Inbound.{read_store, inventory_key}

has_membership : SyncRoute → Contribution → Bool
has_membership route c =
    text_eq c.route_id route.id && ((c.revision == route.revision) && is_attached c.state)

same_scope : List Scope → List Scope → Bool
same_scope [] [] = true
same_scope [] (_ ∷ _) = false
same_scope (_ ∷ _) [] = false
same_scope (a ∷ as') (b ∷ bs) =
    (text_eq a.inbox_id b.inbox_id && text_eq a.history_epoch b.history_epoch) && same_scope as' bs

-- The established cut that `completeReconciliation` asks for.
unfoldable pub is_established : Option CompleteInventory → CompleteInventory → Bool
unfolding same_scope
is_established none evidence = false
is_established (some history) evidence =
    not (ltb history.generation evidence.generation)
    && (not (
          (history.generation == evidence.generation)
          && not (text_eq history.descriptor_digest evidence.descriptor_digest))
        && (text_eq history.peer_id evidence.peer_id
            && (text_eq history.route_id evidence.route_id
                && ((history.revision == evidence.revision)
                    && same_scope history.scope evidence.scope))))

-- The state has been reconciled: the record has it, and keeps a live one with its body.
unfoldable pub is_reconciled : Dict (List ℕ) → SyncRoute → OriginState → Option ManagedRecord → Bool
unfolding has_membership
is_reconciled bodies route state none = false
is_reconciled bodies route state (some r) =
    same_immutable_descriptor r.origin.unsigned state.unsigned
    && (is_deleted r.origin.state
        || (any (has_membership route) r.contributions
            && (leb state.version r.origin.version
                && (r.suppressed || body_available bodies r false))))

pub record Holding : Type 0 where
  pub state : Option OriginState
  pub available : Bool
  pub suppressed : Bool
  pub receipts : List DurableReceipt

abbrev receipt_list : Option DurableReceipt → List DurableReceipt
receipt_list none = []
receipt_list (some receipt) = receipt ∷ []

-- `previous && evidence.generation < previous.generation`
abbrev is_newer : Option CompleteInventory → CompleteInventory → Bool
is_newer none evidence = false
is_newer (some previous) evidence = ltb evidence.generation previous.generation

module _ ⦃p : Platform⦄ where
  -- The loop of `completeReconciliation`, which stops at the first state that is not reconciled.
  all_reconciled : SyncLedger → RouteAuthorization → SyncRoute → List OriginState → M Bool
  all_reconciled ledger auth route [] = pure true
  all_reconciled ledger auth route (state ∷ states) = do
    _ ← authorize ledger auth state inbound
    store ← read_store
    if is_reconciled store.bodies route state (lookup (state_key state.unsigned) ledger.records)
        then all_reconciled ledger auth route states
        else pure false

  unfoldable pub reconcile_in :
      RouteAuthorization → CompleteInventory → List OriginState → SyncLedger → M Bool
  unfolding all_reconciled
  reconcile_in auth evidence states ledger = do
    route ← authorize_route ledger auth (some inbound)
    let key = inventory_key route
    deny (not (is_established (lookup key ledger.history_checkpoints) evidence)) missing_cut
    done ← all_reconciled ledger auth route states
    if not done || is_newer (lookup key ledger.checkpoints) evidence then pure false else (do
      _ ← commit (record ledger { checkpoints = put key evidence ledger.checkpoints })
      pure true)

  -- `completeReconciliation`
  unfoldable pub complete_reconciliation : Json → Json → List Json → M Bool
  complete_reconciliation authorization completion descriptors = do
    auth ← lift (parse_authorization authorization)
    evidence ← lift (parse_complete_inventory completion)
    states ← lift (traverse parse_origin_state descriptors)
    deny
        (not (length states == evidence.count)
          || not (text_eq (inventory_digest states) evidence.descriptor_digest))
        incomplete_inventory
    mutate (reconcile_in auth evidence states)

  holding_of : SyncLedger → SyncRoute → Option ManagedRecord → Store → Holding
  holding_of ledger route none store = record {
    state = none;
    available = false;
    suppressed = false;
    receipts = [];
  }
  holding_of ledger route (some r) store = record {
    state = some r.origin;
    available = body_available store.bodies r false;
    suppressed = r.suppressed;
    receipts = receipt_list (current_custody_receipt ledger route r none);
  }

  authorize_found : SyncLedger → RouteAuthorization → Option ManagedRecord → M (Unit {0})
  authorize_found ledger auth none = pure tt
  authorize_found ledger auth (some r) = do _ ← authorize ledger auth r.origin inbound; pure tt

  holdings_of : SyncLedger → RouteAuthorization → SyncRoute → List (Text × Text) → M (List Holding)
  unfolding holding_of authorize_found
  holdings_of ledger auth route [] = pure []
  holdings_of ledger auth route ((inbox_id, document_id) ∷ more) = do
    deny (not (is_some (pinned_origin_grant ledger route inbox_id none))) origin_out_of_scope
    let found = lookup (canonical_key inbox_id document_id) ledger.records
    authorize_found ledger auth found
    store ← read_store
    rest ← holdings_of ledger auth route more
    pure (holding_of ledger route found store ∷ rest)

  -- `holdingsCut`: the storage incarnation and what is held of each identity.
  unfoldable pub holdings_cut : Json → List (Text × Text) → M (Text × List Holding)
  unfolding holdings_of
  holdings_cut authorization identities = do
    auth ← lift (parse_authorization authorization)
    deny (ltb manifest_page (length identities)) page_limit
    _ ← lift (traverse (λ i. parse_uuid (str i.0)) identities)
    _ ← lift (traverse (λ i. parse_safe_id (str i.1)) identities)
    mutate (λ ledger. do
      route ← authorize_route ledger auth (some inbound)
      holdings ← holdings_of ledger auth route identities
      pure (ledger.storage_incarnation, holdings))
