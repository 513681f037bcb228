-- ===== src/Worker/Tickets.antt =====
-- packages/cli/src/sync-worker.ts: run requests, their tickets, and what wakes and stops the loop.
use html_inbox.Common.{
  adjust, ℕ, ◌+◌, Bool, true, false, not, ◌||◌, List, [], ◌∷◌, Option, none, some, Text, js,
  text_eq, Dict, lookup, put, map_values, length, leb, ltb, ◌==◌, if◌then◌else◌, Result, ok, err,
  ◌>>=◌, ◌>>◌, reject, invalid_run,
}
use html_inbox.Json.{Json, undefined, get, has_own}
use html_inbox.Model.Fields.{
  parse_array, parse_integer, parse_integer_from, parse_object, parse_uuid, assert_exact_keys,
}
use html_inbox.Model.Routes.{all_distinct}
use html_inbox.Worker.{
  Process, RunRequest, RunTicket, Stage, TicketState, queued, running, complete, cancelled, reading,
  routing, ending,
}

-- `value === undefined ? undefined : parse(value)`
abbrev parse_optional {ℓ} : {T : Type ℓ} → (Json → Result T) → Json → Result (Option T)
parse_optional parse undefined = ok none
parse_optional parse v = do t ← parse v; ok (some t)

abbrev is_repeated : Option (List Text) → Bool
is_repeated none = false
is_repeated (some ids) = (length ids == 0) || not (all_distinct ids)

-- `parseWorkerRun`
unfoldable pub parse_worker_run : Json → Result RunRequest
unfolding all_distinct
parse_worker_run value = do
  fields ← parse_object value
  assert_exact_keys fields (
      if has_own (js "routeIds") fields
      then js "ticketId" ∷ js "routeIds" ∷ js "deadlineAt" ∷ js "requestMs" ∷ []
      else js "ticketId" ∷ js "deadlineAt" ∷ js "requestMs" ∷ [])
  route_ids ← parse_optional (λ v. parse_array parse_uuid 128 v) (get (js "routeIds") fields)
  reject (is_repeated route_ids) invalid_run
  ticket_id ← parse_uuid (get (js "ticketId") fields)
  deadline_at ← parse_integer_from 1 (get (js "deadlineAt") fields)
  request_ms ← parse_integer 100 30000 (get (js "requestMs") fields)
  ok (record {
    ticket_id = ticket_id;
    route_ids = route_ids;
    deadline_at = deadline_at;
    request_ms = request_ms;
  })

abbrev pub is_queued : TicketState → Bool
is_queued queued = true
is_queued _ = false

abbrev pub is_running : TicketState → Bool
is_running running = true
is_running _ = false

-- A ticket that its own pass or a cancellation has ended.
abbrev pub is_over : TicketState → Bool
is_over complete = true
is_over cancelled = true
is_over _ = false

abbrev pub max_tickets : ℕ
max_tickets = 32

-- The first ticket that is queued, by its name.
unfoldable pub next_queued : Dict RunTicket → Option Text
next_queued [] = none
next_queued ((id, ticket) ∷ tickets) =
    if is_queued ticket.state then some id else next_queued tickets

abbrev pub at_stage : Stage → Process → Process
at_stage stage process = record process { drain = some stage }

-- The head of the loop of `drain`: it waits for the ledger, or returns.
unfoldable pub loop_top : Process → Process
unfolding next_queued
loop_top process =
    if process.closing then at_stage ending process else elim (next_queued process.tickets) [
      | some id ↦ at_stage (reading (some id)) process
      | none ↦
          if process.background_requested
          then at_stage (reading none) process
          else at_stage ending process
    ]

-- `kick`
unfoldable pub kick : Process → Process
unfolding loop_top
kick process = elim process.drain [
  | some stage ↦ process
  | none ↦ if process.closing then process else loop_top process
]

-- `requestWake`
unfoldable pub request_wake : Process → Process
unfolding kick
request_wake process = kick (record process { background_requested = true })

abbrev pub new_ticket : RunRequest → RunTicket
new_ticket run = record { run = run; is_aborted = false; state = queued; routes = []; error = none }

-- `Date.now() + 300_000`, and the other conditions of `requestRun`.
unfoldable pub is_refused : ℕ → RunRequest → Process → Bool
is_refused now run process =
    process.closing
    || (leb run.deadline_at now
        || (ltb (now + 300000) run.deadline_at || leb max_tickets (length process.tickets)))

-- `requestRun` of a request that has been parsed.
unfoldable pub request_run : ℕ → RunRequest → Process → Result TicketState × Process
unfolding is_refused kick
request_run now run process =
    if is_refused now run process
    then (err invalid_run, process)
    else elim (lookup run.ticket_id process.tickets) [
      | some previous ↦ (ok previous.state, process)
      | none ↦ (
        ok queued,
        kick (record process { tickets = put run.ticket_id (new_ticket run) process.tickets }),
      )
    ]

-- The change that a cancellation makes of a ticket.
unfoldable pub cancelled_ticket : RunTicket → RunTicket
cancelled_ticket ticket =
    if is_queued ticket.state || is_running ticket.state
    then record ticket { state = cancelled; is_aborted = true }
    else ticket

-- The attempt of a ticket that was cancelled is aborted with it.
unfoldable pub abort_for : Text → Option Stage → Option Stage
abort_for id none = none
abort_for id (some (routing none deadline route is_aborted routes)) =
    some (routing none deadline route is_aborted routes)
abort_for id (some (routing (some other) deadline route is_aborted routes)) =
    some (routing (some other) deadline route (is_aborted || text_eq other id) routes)
abort_for id (some stage) = some stage

-- `cancel`; `abort` has no effect on a ticket that is over.
unfoldable pub cancel : Text → Process → Process
unfolding adjust cancelled_ticket abort_for
cancel id process = elim (lookup id process.tickets) [
  | none ↦ process
  | some ticket ↦
      if is_queued ticket.state || is_running ticket.state
      then record process {
        tickets = adjust id cancelled_ticket process.tickets;
        drain = abort_for id process.drain;
      }
      else process
]

-- `stopController.abort()`, and `quiesce` of the route that is at work, or of any.
unfoldable pub abort_attempt : (Text → Bool) → Option Stage → Option Stage
abort_attempt test none = none
abort_attempt test (some (routing ticket deadline route is_aborted routes)) =
    some (routing ticket deadline route (is_aborted || test route) routes)
abort_attempt test (some stage) = some stage

-- `close` until it waits: every ticket is cancelled and the attempt at work aborted, once.
unfoldable pub close : Process → Process
unfolding cancelled_ticket abort_attempt
close process = if process.closing then process else record process {
  closing = true;
  tickets = map_values cancelled_ticket process.tickets;
  drain = abort_attempt (λ route. true) process.drain;
}

-- `quiesce`: the attempt of the route, or of any route, is aborted.
unfoldable pub quiesce : Option Text → Process → Process
unfolding abort_attempt
quiesce none process = record process { drain = abort_attempt (λ route. true) process.drain }
quiesce (some id) process = record process { drain = abort_attempt (text_eq id) process.drain }
