-- ===== src/Store/Apply.antt =====
-- packages/cli/src/sync-store.ts: `applyLocked`, `recordReceipt`, `fenceOwnerHistory` and
-- `bodyAvailable`. `recordReceipt` is shared by every branch that ends with a receipt.
use html_inbox.Common.{
  ℕ, Bool, true, false, not, ◌&&◌, List, [], ◌∷◌, ◌++◌, Option, none, some, Text, js, Dict, lookup,
  put, any, length, text_eq, leb, ◌==◌, if◌then◌else◌, ok, inventory_required,
}
use html_inbox.Model.{OriginState, SyncRoute, Platform, RouteState, is_live, is_deleted, is_active}
use html_inbox.Model.Codec.{state_key, state_fingerprint}
use html_inbox.Ledger.{
  Attachment, Contribution, ManagedRecord, Custody, DurableReceipt, SyncLedger, committed, removed,
  suppressed,
}
use html_inbox.Ledger.Encode.{receipt_key}
use html_inbox.Policy.Fence.{fence_all_routes}
use html_inbox.Policy.Queue.{queue_ledger_state}
use html_inbox.Merge.{Verdict, verdict}
use html_inbox.Store.{ApplyResult, needs_body, settled, StagedBody}
use html_inbox.Store.Monad.{M, pure, lift, ◌>>=◌, ◌>>◌, deny}
use html_inbox.Store.Access.{assert_capacity, allocate_local_id}

abbrev file_has_size : Option (List ℕ) → ℕ → Bool
file_has_size none size = false
file_has_size (some bytes) size = length bytes == size

abbrev body_is_there : Dict (List ℕ) → Option Text → ℕ → Bool
body_is_there bodies none size = false
body_is_there bodies (some name) size = file_has_size (lookup name bodies) size

-- `bodyAvailable`; the files of the body directory are regular, unlinked elsewhere and owned.
unfoldable pub body_available : Dict (List ℕ) → ManagedRecord → Bool → Bool
body_available bodies r include_suppressed =
    is_live r.origin.state
    && (not (r.suppressed && not include_suppressed)
        && body_is_there bodies r.body_file r.origin.byte_length)

abbrev pub owner_ahead_error : Text
owner_ahead_error =
    js "Unexpected remote state ahead of local owner history; trusted owner recovery is required"

-- `fenceOwnerHistory`
unfoldable pub fence_owner_history : SyncLedger → SyncLedger
fence_owner_history ledger =
    let worker = record ledger.worker {
      owner_quarantined = true;
      enabled = false;
      last_error = some owner_ahead_error;
    } in
    fence_all_routes (record ledger { worker = worker }) RouteState.blocked (some owner_ahead_error)

-- A record for a state that has none yet.
abbrev pub new_record : OriginState → Text → ManagedRecord
new_record state local_id = record {
  origin = state;
  local_id = local_id;
  body_file = none;
  contributions = [];
  suppressed = false;
  provenance = [];
}

abbrev attachment_of : SyncRoute → Attachment
attachment_of route = if is_active route.state then Attachment.attached else Attachment.detached

-- The first contribution of the route is renewed.
renew_contribution : SyncRoute → List Contribution → List Contribution
renew_contribution route [] = []
renew_contribution route (c ∷ cs) =
    if text_eq c.route_id route.id
    then record c { revision = route.revision; state = attachment_of route } ∷ cs
    else c ∷ renew_contribution route cs

-- The route's contribution to a record, with the time of receipt if it is the first.
unfoldable pub contribute : SyncRoute → Text → ManagedRecord → ManagedRecord
unfolding renew_contribution
contribute route received_at r =
    if any (λ c. text_eq c.route_id route.id) r.contributions
    then record r { contributions = renew_contribution route r.contributions }
    else record r {
      contributions =
          r.contributions
          ++ record { route_id = route.id; revision = route.revision; state = attachment_of route }
            ∷ [];
      provenance =
          r.provenance
          ++ record { peer_id = route.peer_id; route_id = route.id; received_at = received_at }
            ∷ [];
    }

-- A body is wanted for a live state that no record suppresses and no file holds.
unfoldable pub lacks_body : Dict (List ℕ) → OriginState → Option ManagedRecord → Bool
lacks_body bodies state none = is_live state.state
lacks_body bodies state (some r) =
    is_live state.state && (not r.suppressed && not (body_available bodies r false))

abbrev pub is_staged : Option StagedBody → Bool
is_staged none = false
is_staged (some b) = true

-- What the operations take from clock and random source.
pub record Fresh : Type 0 where
  pub local_id : Text
  pub received_at : Text

-- The record as it takes the state.
unfoldable pub taken_record :
    SyncLedger → Fresh → OriginState → Option ManagedRecord → ManagedRecord
taken_record ledger fresh state none =
    new_record state (allocate_local_id ledger none fresh.local_id)
taken_record ledger fresh state (some r) = record r { origin = state }

-- `record.bodyFile = await this.installBody(staged)`
unfoldable pub install_body : Option StagedBody → ManagedRecord → M ManagedRecord
install_body none r store = (ok r, store)
install_body (some b) r store =
    if is_live r.origin.state && (not r.suppressed && not (body_available store.bodies r false))
    then (
      ok (record r { body_file = some b.file_name }),
      record store { bodies = put b.file_name b.bytes store.bodies },
    )
    else (ok r, store)

-- `if (!record) this.assertCapacity(ledger)`
unfoldable pub absent_capacity : SyncLedger → Option ManagedRecord → M (Unit {0})
absent_capacity ledger none = assert_capacity ledger
absent_capacity ledger (some r) = pure tt

-- A deleted state that is ahead of the owner's own counter.
unfoldable pub ahead_record : SyncLedger → Fresh → OriginState → Option ManagedRecord → M SyncLedger
unfolding taken_record absent_capacity
ahead_record ledger fresh state existing =
    if is_deleted state.state
    then (do
      absent_capacity ledger existing
      pure (record ledger {
        records =
            put (state_key state.unsigned) (taken_record ledger fresh state existing)
              ledger.records;
      }))
    else pure ledger

-- `custody` of a state that was taken.
unfoldable pub custody_of : OriginState → ManagedRecord → Custody
custody_of state r =
    if is_deleted state.state then removed else if r.suppressed then suppressed else committed

module _ ⦃p : Platform⦄ where
  unfoldable pub receipt_for : SyncLedger → SyncRoute → ManagedRecord → Custody → DurableReceipt
  receipt_for ledger route r disposition = record {
    receiver_inbox_id = ledger.inbox_id;
    storage_incarnation = ledger.storage_incarnation;
    destination_inbox_id = ledger.inbox_id;
    route_id = route.id;
    revision = route.revision;
    origin_state = r.origin;
    fingerprint = state_fingerprint r.origin;
    disposition = disposition;
  }

  -- `recordReceipt`
  unfoldable pub record_receipt :
      SyncLedger → SyncRoute → ManagedRecord → Custody → ApplyResult × SyncLedger
  unfolding receipt_for
  record_receipt ledger route r disposition =
      let receipt = receipt_for ledger route r disposition in
      (
        settled disposition receipt,
        record ledger { receipts = put (receipt_key receipt) receipt ledger.receipts },
      )

  -- The record in its place, queued for the other routes, with its receipt.
  unfoldable pub kept_state :
      SyncLedger → SyncRoute → OriginState → Fresh → ManagedRecord → ApplyResult × SyncLedger
  unfolding contribute custody_of record_receipt
  kept_state ledger route state fresh installed =
      let r = contribute route fresh.received_at installed in
      let kept = record ledger { records = put (state_key state.unsigned) r ledger.records } in
      let queued = queue_ledger_state kept (state_key state.unsigned) none false in
      record_receipt queued route r (custody_of state r)

  -- The part of `applyLocked` after the state has been accepted.
  unfoldable pub take_state :
      SyncLedger
      → SyncRoute
      → OriginState
      → Fresh
      → Option StagedBody
      → Option ManagedRecord
      → M (ApplyResult × SyncLedger)
  unfolding taken_record absent_capacity install_body lacks_body kept_state
  take_state ledger route state fresh staged existing = do
    deny (is_live state.state && not (is_active route.state)) inventory_required
    absent_capacity ledger existing
    store ← λ s. (ok s, s)
    if lacks_body store.bodies state existing && not (is_staged staged)
        then pure (needs_body, ledger)
        else do
          installed ← install_body staged (taken_record ledger fresh state existing)
          pure (kept_state ledger route state fresh installed)

  -- An accepted state: one that is ahead of this owner's own counter fences the owner's history.
  unfoldable pub accept_state :
      SyncLedger
      → SyncRoute
      → OriginState
      → Fresh
      → Option StagedBody
      → Option ManagedRecord
      → M (ApplyResult × SyncLedger)
  unfolding ahead_record take_state
  accept_state ledger route state fresh staged existing =
      if text_eq state.origin_inbox_id ledger.inbox_id
        && leb ledger.next_origin_version state.version
      then (do
        marked ← ahead_record ledger fresh state existing
        pure (needs_body, fence_owner_history marked))
      else take_state ledger route state fresh staged existing

  unfoldable pub apply_verdict :
      SyncLedger
      → SyncRoute
      → OriginState
      → Fresh
      → Option StagedBody
      → ManagedRecord
      → Verdict
      → M (ApplyResult × SyncLedger)
  unfolding accept_state
  apply_verdict ledger route state fresh staged r Verdict.superseded =
      pure (record_receipt ledger route r Custody.superseded)
  apply_verdict ledger route state fresh staged r Verdict.accepted =
      accept_state ledger route state fresh staged (some r)

  unfoldable pub apply_existing :
      SyncLedger
      → SyncRoute
      → OriginState
      → Fresh
      → Option StagedBody
      → Option ManagedRecord
      → M (ApplyResult × SyncLedger)
  unfolding accept_state apply_verdict
  apply_existing ledger route state fresh staged none =
      accept_state ledger route state fresh staged none
  apply_existing ledger route state fresh staged (some r) = do
    v ← lift (verdict r.origin state)
    apply_verdict ledger route state fresh staged r v

  -- `applyLocked`
  unfoldable pub apply_locked :
      SyncLedger
      → SyncRoute
      → OriginState
      → Fresh
      → Option StagedBody
      → M (ApplyResult × SyncLedger)
  unfolding apply_existing
  apply_locked ledger route state fresh staged =
      apply_existing ledger route state fresh staged
        (lookup (state_key state.unsigned) ledger.records)
