-- ===== src/Ledger.antt =====
-- packages/cli/src/sync-ledger.ts: the ledger of a managed inbox.
pub mod Encode
pub mod Parse
pub mod Bindings
pub mod Load
pub mod Origin
pub mod Reread
pub mod Evidence
use html_inbox.Common.{ℕ, Bool, true, false, Option, List, Text, Dict}
use html_inbox.Model.{OriginState, OriginGrant, SyncRoute, CompleteInventory}
use html_inbox.Runtime.{RuntimeConfig, SyncTarget}

pub data Attachment : Type 0 where
  attached detached : Attachment

pub record Contribution : Type 0 where
  pub route_id : Text
  pub revision : ℕ
  pub state : Attachment

pub record Provenance : Type 0 where
  pub peer_id : Text
  pub route_id : Text
  pub received_at : Text

-- `ManagedRecord extends OriginState`: `Object.assign(record, state)` replaces the field `origin`.
pub record ManagedRecord : Type 0 where
  pub origin : OriginState
  pub local_id : Text
  pub body_file : Option Text
  pub contributions : List Contribution
  pub suppressed : Bool
  pub provenance : List Provenance

pub record OwnerAnchor : Type 0 where
  pub home : Text
  pub dev : ℕ
  pub ino : ℕ

-- `DurableReceipt["disposition"]`
pub data Custody : Type 0 where
  committed removed suppressed superseded : Custody

pub data Disposition : Type 0 where
  pending confirmed blocked retired : Disposition

pub record OutboxEntry : Type 0 where
  pub route_id : Text
  pub revision : ℕ
  pub canonical_key : Text
  pub fingerprint : Text
  pub receiver_storage_incarnation : Option Text
  pub receipt_disposition : Option Custody
  pub attempts : ℕ
  pub next_attempt_at : ℕ
  pub last_error : Option Text
  pub disposition : Disposition

pub record DurableReceipt : Type 0 where
  pub receiver_inbox_id : Text
  pub storage_incarnation : Text
  pub destination_inbox_id : Text
  pub route_id : Text
  pub revision : ℕ
  pub origin_state : OriginState
  pub fingerprint : Text
  pub disposition : Custody

pub record RouteRetryState : Type 0 where
  pub revision : ℕ
  pub attempts : ℕ
  pub next_attempt_at : ℕ
  pub last_error : Option Text
  pub blocked : Bool

pub record Runtime : Type 0 where
  pub revision : ℕ
  pub config : RuntimeConfig

pub data Phase : Type 0 where
  intent barrier enrolling forking complete : Phase

pub record Migration : Type 0 where
  pub phase : Phase
  pub enrolled_ids : List Text

pub record Worker : Type 0 where
  pub enabled : Bool
  pub retry_paused : Bool
  pub owner_quarantined : Bool
  pub boot_supervised : Bool
  pub last_run_at : Option ℕ
  pub last_error : Option Text

pub record SyncLedger : Type 0 where
  pub route_retries : Dict RouteRetryState
  pub runtime : Option Runtime
  pub publication_intents : Dict (Option SyncTarget)
  pub inbox_id : Text
  pub history_epoch : Text
  pub storage_incarnation : Text
  pub owner_anchor : OwnerAnchor
  pub generation : ℕ
  pub next_origin_version : ℕ
  pub origin_keys : List OriginGrant
  pub records : Dict ManagedRecord
  pub routes : Dict SyncRoute
  pub outbox : Dict OutboxEntry
  pub receipts : Dict DurableReceipt
  pub checkpoints : Dict CompleteInventory
  pub history_checkpoints : Dict CompleteInventory
  pub migration : Migration
  pub worker : Worker

abbrev pub is_attached : Attachment → Bool
is_attached attached = true
is_attached detached = false

abbrev pub is_pending : Disposition → Bool
is_pending pending = true
is_pending _ = false

abbrev pub is_confirmed : Disposition → Bool
is_confirmed confirmed = true
is_confirmed _ = false

abbrev pub is_blocked : Disposition → Bool
is_blocked blocked = true
is_blocked _ = false

abbrev pub is_retired : Disposition → Bool
is_retired retired = true
is_retired _ = false

abbrev pub is_complete : Phase → Bool
is_complete complete = true
is_complete _ = false

abbrev pub same_custody : Custody → Custody → Bool
same_custody committed committed = true
same_custody removed removed = true
same_custody suppressed suppressed = true
same_custody superseded superseded = true
same_custody _ _ = false
