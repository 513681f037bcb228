-- ===== src/Ledger/Bindings.antt =====
-- packages/cli/src/sync-ledger.ts, the second half of `parseLedger`: the checks across the ledger.
use html_inbox.Common.{
  Bool, false, not, ◌&&◌, ◌||◌, List, [], ◌∷◌, Option, none, some, Text, js, map, Dict, lookup, put,
  text_eq, any, leb, ◌==◌, if◌then◌else◌, Result, ok, err, ◌>>◌, reject, duplicate_origin,
  identity_collision, owner_epoch_conflict, version_reuse, invalid_contribution,
  missing_intent_record, invalid_retry_binding, route_binding_conflict, outbox_binding_conflict,
  receipt_binding_conflict, checkpoint_binding_conflict,
}
use html_inbox.Json.Keys.{outbox_key}
use html_inbox.Model.{SyncRoute, CompleteInventory, Platform, is_active, is_inbound}
use html_inbox.Model.Codec.{state_key, state_fingerprint}
use html_inbox.Model.Routes.{all_distinct}
use html_inbox.Ledger.{
  Contribution, ManagedRecord, OutboxEntry, DurableReceipt, RouteRetryState, SyncLedger,
  is_attached, is_retired,
}
use html_inbox.Runtime.{SyncTarget}
use html_inbox.Ledger.Encode.{receipt_key}

-- `for (const item of items) check(item)`
unfoldable pub each {ℓ} : {A : Type ℓ} → (A → Result (Unit {0})) → List A → Result (Unit {0})
each check [] = ok tt
each check (x ∷ xs) = do check x; each check xs

-- The inbox that a route binds on this side.
abbrev pub local_inbox : SyncRoute → Text
local_inbox route =
    if is_inbound route.direction then route.destination_inbox_id else route.source_inbox_id

contribution_is_bound : SyncLedger → Contribution → Bool
contribution_is_bound ledger c = elim (lookup c.route_id ledger.routes) [
  | none ↦ false
  | some route ↦
      leb c.revision route.revision
      && (not (is_attached c.state) || ((c.revision == route.revision) && is_active route.state))
]

check_record : SyncLedger → Text → ManagedRecord → List Text → Result (Unit {0})
unfolding contribution_is_bound
check_record ledger key state local_ids = do
  reject
      (not (text_eq key (state_key state.origin.unsigned))
        || any (text_eq state.local_id) local_ids)
      identity_collision
  reject
      (text_eq state.origin.origin_inbox_id ledger.inbox_id
        && not (text_eq state.origin.history_epoch ledger.history_epoch))
      owner_epoch_conflict
  reject
      (text_eq state.origin.origin_inbox_id ledger.inbox_id
        && (leb ledger.next_origin_version state.origin.version
            && not ledger.worker.owner_quarantined))
      version_reuse
  reject (any (λ c. not (contribution_is_bound ledger c)) state.contributions) invalid_contribution

-- The loop over the records, with the set `localIds`.
check_records : SyncLedger → List Text → Dict ManagedRecord → Result (Unit {0})
check_records ledger local_ids [] = ok tt
check_records ledger local_ids ((key, state) ∷ more) = do
  check_record ledger key state local_ids
  check_records ledger (state.local_id ∷ local_ids) more

check_intent : SyncLedger → Text × Option SyncTarget → Result (Unit {0})
check_intent ledger (key, target) = elim (lookup key ledger.records) [
  | none ↦ err missing_intent_record
  | some record_found ↦ ok tt
]

check_retry : SyncLedger → Text × RouteRetryState → Result (Unit {0})
check_retry ledger (id, retry) = elim (lookup id ledger.routes) [
  | none ↦ err invalid_retry_binding
  | some route ↦ reject (not (route.revision == retry.revision)) invalid_retry_binding
]

check_route : SyncLedger → Text × SyncRoute → Result (Unit {0})
check_route ledger (key, route) =
    reject (not (text_eq key route.id) || not (text_eq (local_inbox route) ledger.inbox_id))
      route_binding_conflict

check_receipt : SyncLedger → Text × DurableReceipt → Result (Unit {0})
check_receipt ledger (key, receipt) = elim (lookup receipt.route_id ledger.routes) [
  | none ↦ err receipt_binding_conflict
  | some route ↦ reject (not (text_eq key (receipt_key receipt))) receipt_binding_conflict
]

-- `{ ...historyCheckpoints, ...checkpoints }` checks an entry of the first only where the second has
-- no entry of that key.
check_checkpoint : SyncLedger → Text × CompleteInventory → Result (Unit {0})
check_checkpoint ledger (key, checkpoint) = elim (lookup checkpoint.route_id ledger.routes) [
  | none ↦ err checkpoint_binding_conflict
  | some route ↦
      reject
        (not (text_eq key (outbox_key checkpoint.route_id checkpoint.revision (js "inventory"))))
        checkpoint_binding_conflict
]

spread {ℓ} : {V : Type ℓ} → Dict V → Dict V → Dict V
spread base [] = base
spread base ((k, v) ∷ more) = spread (put k v base) more

module _ ⦃p : Platform⦄ where
  entry_is_bound : SyncLedger → Text → OutboxEntry → SyncRoute → ManagedRecord → Bool
  entry_is_bound ledger key entry route state =
      text_eq key (outbox_key entry.route_id entry.revision entry.canonical_key)
      && (leb entry.revision route.revision
          && (is_retired entry.disposition
              || ((entry.revision == route.revision)
                  && text_eq entry.fingerprint (state_fingerprint state.origin))))

  check_entry : SyncLedger → Text × OutboxEntry → Result (Unit {0})
  unfolding entry_is_bound
  check_entry ledger (key, entry) = elim (lookup entry.route_id ledger.routes) [
    | none ↦ err outbox_binding_conflict
    | some route ↦ elim (lookup entry.canonical_key ledger.records) [
      | none ↦ err outbox_binding_conflict
      | some state ↦
          reject (not (entry_is_bound ledger key entry route state)) outbox_binding_conflict
    ]
  ]

  unfoldable pub check_bindings : SyncLedger → Result (Unit {0})
  unfolding check_record check_records check_intent check_retry check_route check_entry
      check_receipt check_checkpoint spread each
  check_bindings ledger = do
    reject (not (all_distinct (map (λ g. g.inbox_id) ledger.origin_keys))) duplicate_origin
    check_records ledger [] ledger.records
    each (check_intent ledger) ledger.publication_intents
    each (check_retry ledger) ledger.route_retries
    each (check_route ledger) ledger.routes
    each (check_entry ledger) ledger.outbox
    each (check_receipt ledger) ledger.receipts
    each (check_checkpoint ledger) (spread ledger.history_checkpoints ledger.checkpoints)
