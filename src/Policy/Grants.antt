-- ===== src/Policy/Grants.antt =====
-- packages/cli/src/sync-ledger-policy.ts: grants, receipts and the test that a record may be sent on.
use html_inbox.Common.{
  Bool, true, false, not, ◌&&◌, ◌||◌, Option, none, some, Text, js, lookup, values, text_eq, find,
  any, ◌==◌, if◌then◌else◌,
}
use html_inbox.Json.Keys.{outbox_key}
use html_inbox.Model.{
  OriginState, OriginGrant, SyncRoute, CompleteInventory, Platform, is_active, is_reconnecting,
  is_outbound, is_inbound, is_deleted,
}
use html_inbox.Model.Codec.{state_fingerprint}
use html_inbox.Ledger.{
  Contribution, ManagedRecord, OutboxEntry, DurableReceipt, SyncLedger, is_attached, is_confirmed,
  same_custody, Custody,
}

abbrev pub option_text_is : Option Text → Text → Bool
option_text_is none t = false
option_text_is (some s) t = text_eq s t

-- `historyEpoch === undefined || grant.historyEpoch === historyEpoch`
abbrev pub epoch_fits : Option Text → Text → Bool
epoch_fits none epoch = true
epoch_fits (some wanted) epoch = text_eq epoch wanted

unfoldable pub grant_fits : SyncRoute → Text → Option Text → OriginGrant → Bool
grant_fits route inbox_id history_epoch grant =
    text_eq grant.inbox_id inbox_id
    && (epoch_fits history_epoch grant.history_epoch
        && (text_eq inbox_id route.source_inbox_id || grant.redistribute))

-- `routeOriginGrant`
unfoldable pub route_origin_grant : SyncRoute → Text → Option Text → Option OriginGrant
unfolding grant_fits
route_origin_grant route inbox_id history_epoch =
    find (grant_fits route inbox_id history_epoch) route.allowed_origins

-- The first key that the ledger pins for an inbox.
unfoldable pub pinned_key : SyncLedger → Text → Option OriginGrant
pinned_key ledger inbox_id = find (λ key. text_eq key.inbox_id inbox_id) ledger.origin_keys

unfoldable pub is_pinned_by : Option OriginGrant → OriginGrant → Bool
is_pinned_by none grant = false
is_pinned_by (some pinned) grant =
    text_eq pinned.history_epoch grant.history_epoch && text_eq pinned.public_key grant.public_key

-- `pinnedOriginGrant`
unfoldable pub pinned_origin_grant :
    SyncLedger → SyncRoute → Text → Option Text → Option OriginGrant
unfolding is_pinned_by
pinned_origin_grant ledger route inbox_id history_epoch =
    elim (route_origin_grant route inbox_id history_epoch) [
      | none ↦ none
      | some grant ↦ if is_pinned_by (pinned_key ledger inbox_id) grant then some grant else none
    ]

-- `pinnedStateGrant`
unfoldable pub pinned_state_grant : SyncLedger → SyncRoute → OriginState → Option OriginGrant
pinned_state_grant ledger route state =
    pinned_origin_grant ledger route state.origin_inbox_id (some state.history_epoch)

abbrev pub is_some {ℓ} : {A : Type ℓ} → Option A → Bool
is_some none = false
is_some (some a) = true

scope_holds : Text → Text → Option CompleteInventory → Bool
scope_holds inbox_id history_epoch none = false
scope_holds inbox_id history_epoch (some checkpoint) =
    any (λ s. text_eq s.inbox_id inbox_id && text_eq s.history_epoch history_epoch) checkpoint.scope

abbrev history_checkpoint : SyncLedger → SyncRoute → Option CompleteInventory
history_checkpoint ledger route =
    lookup (outbox_key route.id route.revision (js "inventory")) ledger.history_checkpoints

-- An active route whose established history covers the origin.
unfoldable pub covers_origin : SyncLedger → Text → Text → SyncRoute → Bool
unfolding scope_holds
covers_origin ledger inbox_id history_epoch source =
    is_active source.state && scope_holds inbox_id history_epoch (history_checkpoint ledger source)

-- `hasTrustedOriginHistory`
unfoldable pub has_trusted_origin_history : SyncLedger → Text → Text → Bool
has_trusted_origin_history ledger inbox_id history_epoch =
    any
      (λ source. is_inbound source.direction && covers_origin ledger inbox_id history_epoch source)
      (values ledger.routes)

contribution_carries : SyncLedger → ManagedRecord → Contribution → Bool
contribution_carries ledger r contribution = elim (lookup contribution.route_id ledger.routes) [
  | none ↦ false
  | some source ↦
      is_attached contribution.state
      && covers_origin ledger r.origin.origin_inbox_id r.origin.history_epoch source
]

-- The route is one that may carry the record, its origin aside.
unfoldable pub route_may_carry : SyncLedger → SyncRoute → ManagedRecord → Bool → Bool
route_may_carry ledger route r complete =
    is_some (pinned_state_grant ledger route r.origin)
    && ((is_active route.state
          || (is_reconnecting route.state && (complete || is_deleted r.origin.state)))
        && is_outbound route.direction)

-- `canForwardRecord`
unfoldable pub can_forward_record : SyncLedger → SyncRoute → ManagedRecord → Bool → Bool
unfolding contribution_carries
can_forward_record ledger route r complete =
    let trusted =
      has_trusted_origin_history ledger r.origin.origin_inbox_id r.origin.history_epoch in
    if not (route_may_carry ledger route r complete)
    then false
    else if text_eq r.origin.origin_inbox_id ledger.inbox_id
    then true
    else if is_deleted r.origin.state
    then not complete || trusted
    else if not trusted
    then false
    else any (contribution_carries ledger r) r.contributions

custody_is : Option Custody → Custody → Bool
custody_is none c = false
custody_is (some d) c = same_custody c d

-- With an entry the receipt is the receiver's, for that entry; without one it is this inbox's own.
receipt_is_current : SyncLedger → Option OutboxEntry → DurableReceipt → Bool
receipt_is_current ledger none receipt =
    text_eq receipt.receiver_inbox_id ledger.inbox_id
    && text_eq receipt.storage_incarnation ledger.storage_incarnation
receipt_is_current ledger (some entry) receipt =
    is_confirmed entry.disposition
    && (option_text_is entry.receiver_storage_incarnation receipt.storage_incarnation
        && custody_is entry.receipt_disposition receipt.disposition)

module _ ⦃p : Platform⦄ where
  receipt_names : SyncLedger → SyncRoute → ManagedRecord → DurableReceipt → Bool
  receipt_names ledger route r receipt =
      text_eq receipt.route_id route.id
      && ((receipt.revision == route.revision)
          && (text_eq receipt.origin_state.origin_inbox_id r.origin.origin_inbox_id
              && (text_eq receipt.origin_state.origin_document_id r.origin.origin_document_id
                  && text_eq receipt.fingerprint (state_fingerprint r.origin))))

  -- `currentCustodyReceipt`
  unfoldable pub current_custody_receipt :
      SyncLedger → SyncRoute → ManagedRecord → Option OutboxEntry → Option DurableReceipt
  unfolding receipt_names receipt_is_current custody_is
  current_custody_receipt ledger route r entry =
      find
        (λ receipt. receipt_names ledger route r receipt && receipt_is_current ledger entry receipt)
        (values ledger.receipts)
