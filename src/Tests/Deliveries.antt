-- ===== src/Tests/Deliveries.antt =====
-- The status of a delivery that the destination has committed.
use html_inbox.Common.{◌↔◌, ok, ◌≡◌, refl, true, false, none, [], ◌∷◌, some, js, lookup}
use html_inbox.Model.{SyncRoute, is_outbound}
use html_inbox.Ledger.{DurableReceipt, OutboxEntry, SyncLedger, committed, confirmed}
use html_inbox.Policy.Grants.{current_custody_receipt}
use html_inbox.Store.Delivery.{DeliveryStatus, is_cut_off, settling_receipt, status_in, status_of}
use html_inbox.Store.Delivered.{IsDelivered, status_in-IsDelivered}
use html_inbox.Store.Holdings.{Holding, is_missing, needs_repair, reconcile_holding, repair}
use html_inbox.Store.Held.{IsReconciled, reconcile_holding-IsReconciled}
use html_inbox.Store.Outbound.{Inventory, inventory_in}
use html_inbox.Store.Offered.{IsOffered, inventory_in_iff}
use html_inbox.Tests.Opened.{opened}
use html_inbox.Tests.Data.{
  authorization_of, own_state, store, entry_key, epoch, host, inbox, ledger, outgoing, own_entry,
  own_key, receipt, route_out,
}

abbrev settled_entry : OutboxEntry
settled_entry = record own_entry {
  receiver_storage_incarnation = some epoch;
  receipt_disposition = some committed;
  disposition = confirmed;
}

abbrev settled_ledger : SyncLedger
settled_ledger = record ledger {
  outbox = (entry_key, settled_entry) ∷ [];
  receipts = (js "receipt", receipt) ∷ [];
}

abbrev told : DeliveryStatus
told = status_of settled_ledger outgoing own_key

status_in-IsDelivered_example :
    (route : SyncRoute) × (lookup route_out settled_ledger.routes ≡ some route)
    × (is_outbound route.direction ≡ true)
    × (found : DurableReceipt) × (told.receipt ≡ some found)
    × IsDelivered settled_ledger route own_key found
unfolding opened status_in status_of is_cut_off settling_receipt current_custody_receipt
status_in-IsDelivered_example =
    status_in-IsDelivered route_out own_key settled_ledger told refl refl

abbrev lost : Holding
lost = record {
  origin_inbox_id = inbox;
  origin_document_id = js "mine";
  fingerprint = none;
  available = false;
  suppressed = false;
  storage_incarnation = epoch;
}

abbrev repaired : SyncLedger
repaired = repair settled_ledger outgoing own_key entry_key lost

reconcile_holding-IsReconciled_example : IsReconciled settled_ledger outgoing lost repaired
unfolding opened reconcile_holding needs_repair is_missing repair
reconcile_holding-IsReconciled_example =
    reconcile_holding-IsReconciled outgoing lost settled_ledger repaired refl refl

abbrev cut : Inventory
cut = record { generation = 7; states = own_state ∷ []; scope = outgoing.allowed_origins }

inventory_in_iff_example :
    (inventory_in (authorization_of outgoing) ledger store ≡ (ok cut, store))
    ↔ IsOffered ledger (authorization_of outgoing) cut store store
inventory_in_iff_example = inventory_in_iff ledger (authorization_of outgoing) cut store store

inventory_in_test : inventory_in (authorization_of outgoing) ledger store ≡ (ok cut, store)
unfolding opened inventory_in
inventory_in_test = refl
