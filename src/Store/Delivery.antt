-- ===== src/Store/Delivery.antt =====
-- packages/cli/src/sync-store.ts, what becomes of a record on an outbound route: `deliveryStatus`.
use html_inbox.Common.{
  ℕ, Bool, true, false, not, ◌&&◌, ◌||◌, Option, none, some, Text, lookup, leb, if◌then◌else◌,
  Result, ok, reject, require, not_outbound, status_deadline, ◌>>=◌ as ◌>>=ᵣ◌, ◌>>◌ as ◌>>ᵣ◌,
}
use html_inbox.Json.{Json}
use html_inbox.Json.Keys.{canonical_key, outbox_key}
use html_inbox.Model.{SyncRoute, Platform, is_outbound, is_detached}
use html_inbox.Model.Fields.{parse_safe_id, parse_uuid}
use html_inbox.Ledger.{
  Custody, Disposition, DurableReceipt, ManagedRecord, OutboxEntry, SyncLedger, committed,
  is_retired, same_custody,
}
use html_inbox.Policy.Grants.{current_custody_receipt}
use html_inbox.Store.Monad.{M, lift, ◌>>=◌, ◌>>◌, deny}
use html_inbox.Store.Commit.{mutate}

pub data Delivery : Type 0 where
  detached_delivery : Delivery
  received : Custody → Delivery
  owed : Disposition → Delivery

pub record DeliveryStatus : Type 0 where
  pub route_id : Text
  pub revision : ℕ
  pub destination_inbox_id : Text
  pub status : Delivery
  pub is_committed : Bool
  pub receipt : Option DurableReceipt
  pub attempts : ℕ
  pub next_attempt_at : ℕ
  pub last_error : Option Text

-- `route.state === "detached" || !entry || entry.disposition === "retired"`
unfoldable pub is_cut_off : SyncRoute → Option OutboxEntry → Bool
is_cut_off route none = true
is_cut_off route (some entry) = is_detached route.state || is_retired entry.disposition

abbrev pub is_committed_by : Option DurableReceipt → Bool
is_committed_by none = false
is_committed_by (some receipt) = same_custody receipt.disposition committed

-- `receipt?.disposition ?? entry.disposition`, where the entry is there.
abbrev status_from : Option DurableReceipt → Option OutboxEntry → Delivery
status_from (some receipt) entry = received receipt.disposition
status_from none (some entry) = owed entry.disposition
status_from none none = detached_delivery

abbrev attempts_of : Option OutboxEntry → ℕ
attempts_of none = 0
attempts_of (some entry) = entry.attempts

abbrev next_attempt_of : Option OutboxEntry → ℕ
next_attempt_of none = 0
next_attempt_of (some entry) = entry.next_attempt_at

-- `entry?.lastError ?? route.lastError`
abbrev last_error_of : SyncRoute → Option OutboxEntry → Option Text
last_error_of route none = route.last_error
last_error_of route (some entry) = elim entry.last_error [
  | some error ↦ some error
  | none ↦ route.last_error
]

module _ ⦃p : Platform⦄ where
  -- The receipt that settles the obligation, where both it and the record are there.
  unfoldable pub settling_receipt :
      SyncLedger → SyncRoute → Option OutboxEntry → Option ManagedRecord → Option DurableReceipt
  settling_receipt ledger route (some entry) (some r) =
      current_custody_receipt ledger route r (some entry)
  settling_receipt ledger route (some entry) none = none
  settling_receipt ledger route none r = none

  unfoldable pub status_of : SyncLedger → SyncRoute → Text → DeliveryStatus
  unfolding is_cut_off settling_receipt
  status_of ledger route key =
      let entry = lookup (outbox_key route.id route.revision key) ledger.outbox in
      let receipt = settling_receipt ledger route entry (lookup key ledger.records) in
      record {
        route_id = route.id;
        revision = route.revision;
        destination_inbox_id = route.destination_inbox_id;
        status = if is_cut_off route entry then detached_delivery else status_from receipt entry;
        is_committed = not (is_cut_off route entry) && is_committed_by receipt;
        receipt = receipt;
        attempts = attempts_of entry;
        next_attempt_at = next_attempt_of entry;
        last_error = last_error_of route entry;
      }

  -- The body of `deliveryStatus` under the lock.
  unfoldable pub status_in : Text → Text → SyncLedger → Result DeliveryStatus
  unfolding status_of
  status_in route_id key ledger =
      require (lookup route_id ledger.routes) not_outbound >>=ᵣ (λ route.
        reject (not (is_outbound route.direction)) not_outbound >>ᵣ ok (status_of ledger route key))

  abbrev is_late : Option ℕ → ℕ → Bool
  is_late none now = false
  is_late (some deadline) now = leb deadline now

  -- `deliveryStatus`
  unfoldable pub delivery_status : Json → Json → Json → Option ℕ → ℕ → M DeliveryStatus
  unfolding status_in
  delivery_status route_id origin_inbox_id origin_document_id deadline now = do
    id ← lift (parse_uuid route_id)
    inbox ← lift (parse_uuid origin_inbox_id)
    document ← lift (parse_safe_id origin_document_id)
    deny (is_late deadline now) status_deadline
    mutate (λ ledger. lift (status_in id (canonical_key inbox document) ledger))
