-- ===== src/Store/Delivered.antt =====
-- What `deliveryStatus` tells about a record.
use html_inbox.Common.{
  ok-injective, unrefused, ◌≡◌, refl, sym, subst, arith, true, false, not, List, ◌∷◌, ◌++◌, Option,
  none, some, Text, text_eq_iff, find_sound, find_split, lookup, values, ok, require, require-eq-ok,
  reject-eq-ok, >>=-eq-ok as >>=ᵣ-eq-ok, not_outbound, reject,
}
use html_inbox.Json.Keys.{outbox_key}
use html_inbox.Model.{SyncRoute, Platform, is_outbound, is_detached}
use html_inbox.Model.Codec.{state_fingerprint}
use html_inbox.Ledger.{DurableReceipt, ManagedRecord, OutboxEntry, SyncLedger, committed, confirmed}
use html_inbox.Policy.Grants.{option_text_is, current_custody_receipt}
use html_inbox.Store.Delivery.{
  DeliveryStatus, is_committed_by, is_cut_off, settling_receipt, status_in, status_of,
}

option_text_is-some : (o : Option Text) (t : Text) → option_text_is o t ≡ true → o ≡ some t
option_text_is-some none t h = cc
option_text_is-some (some u) t h = ground (arith, text_eq_iff u t)

module _ ⦃p : Platform⦄ where
  -- The ledger holds a receipt that the destination committed the record's current state, from the incarnation that
  -- the confirmed obligation of the route's revision names.
  pub record IsDelivered (ledger : SyncLedger) (route : SyncRoute) (key : Text)
      (receipt : DurableReceipt) : Type 0 where
    pub entry : OutboxEntry
    pub found_entry : lookup (outbox_key route.id route.revision key) ledger.outbox ≡ some entry
    pub managed : ManagedRecord
    pub found_record : lookup key ledger.records ≡ some managed
    pub attached : is_detached route.state ≡ false
    pub settled : entry.disposition ≡ confirmed
    pub front : List DurableReceipt
    pub back : List DurableReceipt
    pub kept : values ledger.receipts ≡ front ++ receipt ∷ back
    pub same_route : receipt.route_id ≡ route.id
    pub same_state : receipt.fingerprint ≡ state_fingerprint managed.origin
    pub same_incarnation : entry.receiver_storage_incarnation ≡ some receipt.storage_incarnation
    pub is_committed : receipt.disposition ≡ committed

  committed_receipt :
      (receipt : Option DurableReceipt)
      → is_committed_by receipt ≡ true
      → (r : DurableReceipt) × (receipt ≡ some r) × (r.disposition ≡ committed)
  committed_receipt none h = cc
  committed_receipt (some r) h = (r, refl, ground arith)

  settled_delivery :
      (ledger : SyncLedger) (route : SyncRoute) (key : Text) (entry : Option OutboxEntry)
      (managed : Option ManagedRecord) (receipt : DurableReceipt)
      → lookup (outbox_key route.id route.revision key) ledger.outbox ≡ entry
      → lookup key ledger.records ≡ managed
      → is_cut_off route entry ≡ false
      → settling_receipt ledger route entry managed ≡ some receipt
      → receipt.disposition ≡ committed
      → IsDelivered ledger route key receipt
  unfolding is_cut_off settling_receipt current_custody_receipt
  settled_delivery ledger route key none managed receipt a b attached found c = cc
  settled_delivery ledger route key (some entry) none receipt a b attached found c = cc
  settled_delivery ledger route key (some entry) (some r) receipt a b attached found c =
      let test = find_sound _ (values ledger.receipts) receipt found in
      let (front, back, parts) = find_split _ (values ledger.receipts) receipt found in
      record {
        entry = entry;
        found_entry = a;
        managed = r;
        found_record = b;
        attached = ground arith;
        settled = ground arith;
        front = front;
        back = back;
        kept = parts;
        same_route = ground (arith, text_eq_iff receipt.route_id route.id);
        same_state = ground (arith, text_eq_iff receipt.fingerprint (state_fingerprint r.origin));
        same_incarnation =
            option_text_is-some entry.receiver_storage_incarnation receipt.storage_incarnation
              (ground arith);
        is_committed = c;
      }

  status_of-IsDelivered :
      (ledger : SyncLedger) (route : SyncRoute) (key : Text)
      → (status_of ledger route key).is_committed ≡ true
      → (receipt : DurableReceipt) × ((status_of ledger route key).receipt ≡ some receipt)
        × IsDelivered ledger route key receipt
  unfolding status_of
  status_of-IsDelivered ledger route key told =
      let entry = lookup (outbox_key route.id route.revision key) ledger.outbox in
      let managed = lookup key ledger.records in
      let attached : is_cut_off route entry ≡ false = ground arith in
      let (receipt, found, c) =
        committed_receipt (settling_receipt ledger route entry managed) (ground arith) in
      (
        receipt,
        found,
        settled_delivery ledger route key entry managed receipt refl refl attached found c,
      )

  -- Where `deliveryStatus` tells that a record is committed, its route goes out and is attached, the obligation of the route's
  -- current revision for the record is confirmed, and the ledger holds the receipt that it names: of the
  -- record's current state, for that route, from the incarnation that the obligation names, and committed.
  pub status_in-IsDelivered :
      (route_id key : Text) (ledger : SyncLedger) (status : DeliveryStatus)
      → status_in route_id key ledger ≡ ok status
      → status.is_committed ≡ true
      → (route : SyncRoute) × (lookup route_id ledger.routes ≡ some route)
        × (is_outbound route.direction ≡ true)
        × (receipt : DurableReceipt) × (status.receipt ≡ some receipt)
        × IsDelivered ledger route key receipt
  unfolding status_in
  status_in-IsDelivered route_id key ledger status told committed_told =
      let (route, found, rest) =
        >>=ᵣ-eq-ok (require (lookup route_id ledger.routes) not_outbound) _ told in
      let (_, allowed, same) =
        >>=ᵣ-eq-ok (reject (not (is_outbound route.direction)) not_outbound) _ rest in
      let it : status_of ledger route key ≡ status = ok-injective same in
      let (receipt, named, delivered) =
        status_of-IsDelivered ledger route key
          (subst (λ s. s.is_committed ≡ true) (sym it) committed_told) in
      (
        route,
        require-eq-ok (lookup route_id ledger.routes) not_outbound found,
        unrefused (reject-eq-ok _ _ allowed),
        receipt,
        subst (λ s. s.receipt ≡ some receipt) it named,
        delivered,
      )
