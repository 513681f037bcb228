-- ===== src/Worker/Events.antt =====
-- packages/cli/src/sync-worker.ts: the pieces of the worker in the order in which they happen to run.
use html_inbox.Common.{List, Option, [], false, not, none, some, Text, Bool, ℕ}
use html_inbox.Ledger.{SyncLedger}
use html_inbox.Worker.{
  Process, RouteReconciliation, RunRequest, Stage, reading, looking, routing, recording, ending,
}
use html_inbox.Worker.Tickets.{cancel, close, kick, quiesce, request_run, request_wake}
use html_inbox.Worker.Passes.{
  Clocks, on_attempt, on_end, on_failure, on_ledger, on_recorded, on_route, on_tick,
}

-- What `drain` waits for.
pub data Answer : Type 0 where
  read : Option SyncLedger → Answer
  looked : SyncLedger → Bool → Answer
  routed : List RouteReconciliation → Bool → Answer
  recorded : Answer
  failed : Answer
  ended : Answer

pub data Event : Type 0 where
  run : RunRequest → Event
  cancelling : Text → Event
  waking : Event
  quiescing : Option Text → Event
  ticking : SyncLedger → Clocks → Event
  draining : Answer → Event
  stopping : Event

-- The answer for a stage that does not wait for it never comes.
unfoldable pub resume : Stage → Answer → ℕ → Process → Process
unfolding on_ledger on_route on_attempt on_recorded on_failure on_end
resume (reading ticket) (read ledger) now process = on_ledger ticket ledger now process
resume (looking ticket deadline route routes) (looked ledger unavailable) now process =
    on_route ticket deadline route routes ledger unavailable now process
resume (routing ticket deadline route is_aborted routes) (routed reported threw) now process =
    on_attempt ticket deadline is_aborted routes reported threw now process
resume (recording ticket) recorded now process = on_recorded ticket now process
resume (reading ticket) failed now process = on_failure now process
resume (looking ticket deadline route routes) failed now process = on_failure now process
resume (recording ticket) failed now process = on_failure now process
resume ending ended now process = on_end process
resume _ _ now process = process

unfoldable pub step : Event → ℕ → Process → Process
unfolding request_run cancel request_wake quiesce on_tick resume close
step (run request) now process = (request_run now request process).1
step (cancelling id) now process = cancel id process
step waking now process = request_wake process
step (quiescing route) now process = quiesce route process
step (ticking ledger clocks) now process = on_tick ledger now clocks process
step (draining given) now process = elim process.drain [
  | none ↦ process
  | some stage ↦ resume stage given now process
]
step stopping now process = close process

-- The worker when it starts; one that is not temporary has a pass of its own to make.
abbrev pub new_process : Bool → Text → ℕ → Process
new_process temporary storage_incarnation config_revision = record {
  temporary = temporary;
  storage_incarnation = storage_incarnation;
  config_revision = config_revision;
  tickets = [];
  drain = none;
  background_requested = not temporary;
  closing = false;
  last_pass_at = 0;
}

unfoldable pub started : Bool → Text → ℕ → Process
unfolding kick
started temporary storage_incarnation config_revision =
    kick (new_process temporary storage_incarnation config_revision)

-- The processes that events lead to, each at some time.
pub data Reach (start : Process) : Process → Type 0 where
  here : Reach start start
  next :
      {process : Process}
      → Reach start process
      → (e : Event) (now : ℕ) → Reach start (step e now process)
