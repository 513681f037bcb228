-- ===== src/Tests/Loops.antt =====
-- Runs of the worker of one inbox.
use html_inbox.Common.{some, [], ◌∷◌, true}
use html_inbox.Worker.{Process, RunRequest}
use html_inbox.Worker.Events.{cancelling, here, next, run, started, step, stopping}
use html_inbox.Worker.Sound.{IsSound}
use html_inbox.Worker.Reached.{Reach-IsOrderly}
use html_inbox.Tests.Data.{epoch, route_out}

abbrev request : RunRequest
request = record {
  ticket_id = route_out;
  route_ids = some (route_out ∷ []);
  deadline_at = 1000;
  request_ms = 100;
}

abbrev fresh : Process
fresh = started true epoch 1

abbrev requested : Process
requested = step (run request) 5 fresh

abbrev cancelled_while_reading : Process
cancelled_while_reading = step (cancelling route_out) 6 requested

abbrev stopped : Process
stopped = step stopping 7 cancelled_while_reading

Reach-IsOrderly_example : IsSound stopped
Reach-IsOrderly_example =
    Reach-IsOrderly true epoch 1 stopped
      (next (next (next here (run request) 5) (cancelling route_out) 6) stopping 7)
