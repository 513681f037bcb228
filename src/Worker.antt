-- ===== src/Worker.antt =====
-- packages/cli/src/sync-worker.ts: the process that drives the routes of one inbox. Its state changes
-- between two awaits, so an operation here is one such piece; `drain` is where its loop waits.
pub mod Tickets
pub mod Passes
pub mod Events
pub mod Sound
pub mod Kept
pub mod Aborted
pub mod Passed
pub mod Answers
pub mod Reached
use html_inbox.Common.{ℕ, Bool, Option, List, Text, Dict}
use html_inbox.Model.{Direction, SyncRoute}

pub record RunRequest : Type 0 where
  pub ticket_id : Text
  pub route_ids : Option (List Text)
  pub deadline_at : ℕ
  pub request_ms : ℕ

pub data TicketState : Type 0 where
  queued running complete cancelled : TicketState

-- `RouteReconciliation["status"]`
pub data PassStatus : Type 0 where
  confirmed pending blocked detached aborted : PassStatus

pub record RouteReconciliation : Type 0 where
  pub route_id : Text
  pub direction : Direction
  pub status : PassStatus
  pub history_ready : Bool
  pub fully_reconciled : Bool
  pub transferred : ℕ
  pub confirmed : ℕ
  pub pending : ℕ
  pub blocked : ℕ
  pub last_error : Option Text

-- `RunTicket`; `is_aborted` is the signal of its controller.
pub record RunTicket : Type 0 where
  pub run : RunRequest
  pub is_aborted : Bool
  pub state : TicketState
  pub routes : List RouteReconciliation
  pub error : Option Text

-- Where `drain` waits, with its variables: the ticket that it serves, or none for a pass of its own, the
-- deadline, and the routes that are left. A route attempt has a signal of its own.
pub data Stage : Type 0 where
  reading : Option Text → Stage
  looking : Option Text → ℕ → Text → List Text → Stage
  routing : Option Text → ℕ → Text → Bool → List Text → Stage
  recording : Option Text → Stage
  ending : Stage

pub record Process : Type 0 where
  pub temporary : Bool
  pub storage_incarnation : Text
  pub config_revision : ℕ
  pub tickets : Dict RunTicket
  pub drain : Option Stage
  pub background_requested : Bool
  pub closing : Bool
  pub last_pass_at : ℕ
