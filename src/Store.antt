-- ===== src/Store.antt =====
-- packages/cli/src/sync-store.ts: the managed store of one inbox. Every mutation runs under the
-- store's lock on a ledger that it has just read, so an operation is a function of the store.
-- The model begins with a store that has been recovered: enrollment, recovery and the failures of the
-- file system are not part of it. Bodies are the files of the body directory, by their names.
pub mod Monad
pub mod Commit
pub mod Committed
pub mod Access
pub mod Authority
pub mod Apply
pub mod Applied
pub mod Routes
pub mod Revoked
pub mod Pinned
pub mod Inbound
pub mod Received
pub mod Inventory
pub mod Reconcile
pub mod Outbound
pub mod Outbox
pub mod Delivery
pub mod Holdings
pub mod Held
pub mod Delivered
pub mod Outgoing
pub mod Offered
pub mod Documents
pub mod Owned
pub mod Worker
pub mod Audited
pub mod Attempts
pub mod Admitted
pub mod Restore
pub mod Restored
use html_inbox.Common.{ℕ, Bool, Option, List, Text, Dict}
use html_inbox.Model.{OriginState}
use html_inbox.Ledger.{SyncLedger, OwnerAnchor, DurableReceipt, Custody}

-- An entry of `activeAttempts`, with the state of its controller.
pub record Attempt : Type 0 where
  pub route_id : Text
  pub revision : ℕ
  pub locally_initiated : Bool
  pub aborted : Bool

pub record Store : Type 0 where
  pub disk : SyncLedger
  pub bodies : Dict (List ℕ)
  pub owner_keys : Dict Text
  pub reader_identity : Option Text
  pub has_barrier : Bool
  pub anchor : OwnerAnchor
  pub uncertain : Bool
  pub attempts : List Attempt

-- `ApplyResult`
pub data ApplyResult : Type 0 where
  needs_body : ApplyResult
  settled : Custody → DurableReceipt → ApplyResult

-- A body that has been written to the staging directory, with the name that `installBody` gives it.
pub record StagedBody : Type 0 where
  pub file_name : Text
  pub bytes : List ℕ
