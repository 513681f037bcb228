-- ===== src/Worker/Passes.antt =====
-- packages/cli/src/sync-worker.ts: the loop of `drain` between its awaits, and the tick.
use html_inbox.Common.{
  adjust, delete_where, ℕ, ◌+◌, ◌-◌, min, Bool, true, false, not, ◌&&◌, ◌||◌, List, [], ◌∷◌, ◌++◌,
  Option, none, some, Text, js, text_eq, lookup, values, map_values, any, keep, map, leb, ltb, ◌==◌,
  if◌then◌else◌,
}
use html_inbox.Model.{SyncRoute, is_active, is_reconnecting}
use html_inbox.Ledger.{RouteRetryState, Runtime, SyncLedger, is_pending}
use html_inbox.Runtime.{RuntimeConfig, default_runtime_config}
use html_inbox.Policy.Retry.{is_route_due}
use html_inbox.Worker.{
  Process, RouteReconciliation, RunTicket, TicketState, running, complete, looking, routing,
  recording, ending,
}
use html_inbox.Worker.Tickets.{
  at_stage, close, is_over, is_queued, is_running, kick, loop_top, next_queued, request_wake,
}

-- `ledger.runtime?.config ?? defaultRuntimeConfig()`
abbrev config_of : Option Runtime → RuntimeConfig
config_of none = default_runtime_config
config_of (some r) = r.config

-- `ledger.runtime?.revision ?? 0`
abbrev revision_of : Option Runtime → ℕ
revision_of none = 0
revision_of (some r) = r.revision

-- A change of the ticket that `drain` serves, if it serves one.
abbrev pub for_ticket : Option Text → (RunTicket → RunTicket) → Process → Process
for_ticket none change process = process
for_ticket (some id) change process = record process { tickets = adjust id change process.tickets }

abbrev pub with_state : TicketState → RunTicket → RunTicket
with_state state ticket = record ticket { state = state }

abbrev pub with_error : Text → RunTicket → RunTicket
with_error error ticket = record ticket { error = some error }

unfoldable pub ended_with : Text → RunTicket → RunTicket
ended_with error ticket = record ticket { state = complete; error = some error }

abbrev pub ticket_of : Option Text → Process → Option RunTicket
ticket_of none process = none
ticket_of (some id) process = lookup id process.tickets

abbrev pub is_stopped : Option RunTicket → Bool
is_stopped none = false
is_stopped (some ticket) = ticket.is_aborted

-- The head of the loop over the routes: it waits for the ledger, or for the end of the pass to be recorded.
unfoldable pub turn : Option Text → ℕ → List Text → ℕ → Process → Process
turn ticket deadline [] now process =
    at_stage (recording ticket) (record process { last_pass_at = now })
turn ticket deadline (route ∷ routes) now process =
    if process.closing || (is_stopped (ticket_of ticket process) || leb deadline now)
    then at_stage (recording ticket) (record process { last_pass_at = now })
    else at_stage (looking ticket deadline route routes) process

abbrev is_open_route : SyncRoute → Bool
is_open_route route = is_active route.state || is_reconnecting route.state

-- The routes of a pass: those of the ticket, or every open route.
abbrev routes_of : Option RunTicket → SyncLedger → List Text
routes_of none ledger = map (λ r. r.id) (keep is_open_route (values ledger.routes))
routes_of (some ticket) ledger = elim ticket.run.route_ids [
  | none ↦ map (λ r. r.id) (keep is_open_route (values ledger.routes))
  | some ids ↦ ids
]

abbrev deadline_of : Option RunTicket → ℕ → ℕ
deadline_of none limit = limit
deadline_of (some ticket) limit = min ticket.run.deadline_at limit

-- The ledger is still that of this process.
unfoldable pub is_own : SyncLedger → Process → Bool
is_own ledger process =
    text_eq ledger.storage_incarnation process.storage_incarnation
    && (revision_of ledger.runtime == process.config_revision)

abbrev pub is_some : Option Text → Bool
is_some none = false
is_some (some id) = true

-- A pass of its own takes the request for it.
unfoldable pub take_request : Option Text → Process → Process
take_request none process = record process { background_requested = false }
take_request (some id) process = process

-- The pass begins.
unfoldable pub begin_pass : Option Text → SyncLedger → ℕ → Process → Process
unfolding turn
begin_pass ticket ledger now process =
    let chosen = ticket_of ticket process in
    turn ticket (deadline_of chosen (now + (config_of ledger.runtime).timings.pass_ms))
      (routes_of chosen ledger) now (for_ticket ticket (with_state running) process)

-- `drain` once it has the ledger.
unfoldable pub on_ledger : Option Text → Option SyncLedger → ℕ → Process → Process
unfolding is_own take_request begin_pass ended_with close loop_top
on_ledger ticket none now process = at_stage ending (close process)
on_ledger ticket (some ledger) now process =
    if not (is_own ledger process)
    then at_stage ending (close process)
    else if ledger.worker.retry_paused
    then loop_top
        (for_ticket ticket (ended_with (js "retries-paused")) (take_request ticket process))
    else if not (is_some ticket) && not ledger.worker.enabled
    then loop_top (take_request ticket process)
    else begin_pass ticket ledger now (take_request ticket process)

-- The route is there, open, not paused and due.
unfoldable pub is_runnable : SyncLedger → ℕ → Text → Bool
is_runnable ledger now id = elim (lookup id ledger.routes) [
  | none ↦ false
  | some route ↦
      not ledger.worker.retry_paused && (is_open_route route && is_route_due ledger route now)
]

-- `drain` once it has the ledger for one route; `unavailable` is that its credential is.
unfoldable pub on_route :
    Option Text → ℕ → Text → List Text → SyncLedger → Bool → ℕ → Process → Process
unfolding is_runnable turn
on_route ticket deadline route routes ledger unavailable now process =
    if not (is_runnable ledger now route)
    then turn ticket deadline routes now process
    else if unavailable
    then turn ticket deadline routes now
        (for_ticket ticket (with_error (js "runtime-credential-unavailable")) process)
    else at_stage
        (routing ticket deadline route (process.closing || is_stopped (ticket_of ticket process))
          routes)
        process

abbrev pub with_routes : List RouteReconciliation → RunTicket → RunTicket
with_routes routes ticket = record ticket { routes = ticket.routes ++ routes }

unfoldable pub failed_attempt : Bool → RunTicket → RunTicket
failed_attempt is_aborted ticket = record ticket {
  error = some (if is_aborted then js "cancelled" else js "worker-pass-failed");
}

-- `drain` once an attempt has ended; what it reported, and whether something threw.
unfoldable pub on_attempt :
    Option Text → ℕ → Bool → List Text → List RouteReconciliation → Bool → ℕ → Process → Process
unfolding failed_attempt turn
on_attempt ticket deadline is_aborted routes reported threw now process =
    let told = for_ticket ticket (with_routes reported) process in
    turn ticket deadline routes now
      (if threw then for_ticket ticket (failed_attempt is_aborted) told else told)

unfoldable pub completed_ticket : RunTicket → RunTicket
completed_ticket ticket =
    if is_running ticket.state then record ticket { state = complete } else ticket

unfoldable pub is_stale : ℕ → RunTicket → Bool
is_stale now ticket = is_over ticket.state && ltb (ticket.run.deadline_at + 60000) now

-- `drain` once the end of the pass is recorded.
unfoldable pub on_recorded : Option Text → ℕ → Process → Process
unfolding completed_ticket is_stale delete_where loop_top
on_recorded ticket now process =
    let done = for_ticket ticket completed_ticket process in
    loop_top (record done { tickets = delete_where (is_stale now) done.tickets done.tickets })

unfoldable pub failed_ticket : RunTicket → RunTicket
unfolding ended_with
failed_ticket ticket =
    if is_running ticket.state || is_queued ticket.state
    then ended_with (js "worker-pass-failed") ticket
    else ticket

-- The handler of a failure of `drain`.
unfoldable pub on_failure : ℕ → Process → Process
unfolding failed_ticket
on_failure now process = record process {
  last_pass_at = now;
  background_requested = false;
  tickets = map_values failed_ticket process.tickets;
  drain = some ending;
}

-- The last handler of `drain`: the loop begins again if something has come in between.
unfoldable pub on_end : Process → Process
unfolding kick next_queued
on_end process =
    let idle = record process { drain = none } in
    if not process.closing
      && (is_some (next_queued process.tickets) || process.background_requested)
    then kick idle
    else idle

-- What the two clocks showed at the last tick and show now.
pub record Clocks : Type 0 where
  pub last_wall : ℕ
  pub wall : ℕ
  pub last_monotonic : ℕ
  pub monotonic : ℕ

-- The clocks jumped or ran apart.
unfoldable pub is_gap : Clocks → Bool
is_gap c =
    ltb (c.last_wall + 2000) c.wall
    || (ltb (c.last_monotonic + 2000) c.monotonic
        || ltb 1000 (
            ((c.wall + c.last_monotonic) - (c.last_wall + c.monotonic))
            + ((c.last_wall + c.monotonic) - (c.wall + c.last_monotonic))))

abbrev has_schedule : Option RouteRetryState → Bool
has_schedule none = false
has_schedule (some r) = not (r.next_attempt_at == 0)

-- A route that is due and has a schedule or an obligation.
unfoldable pub is_retry_due : SyncLedger → ℕ → SyncRoute → Bool
is_retry_due ledger now route =
    is_open_route route
    && (is_route_due ledger route now
        && (has_schedule (lookup route.id ledger.route_retries)
            || any
                (λ e.
                  text_eq e.route_id route.id
                  && ((e.revision == route.revision)
                      && (is_pending e.disposition && leb e.next_attempt_at now)))
                (values ledger.outbox)))

-- `ledger.runtime?.config.timings.reconcileMs ?? 30_000`
abbrev reconcile_ms_of : Option Runtime → ℕ
reconcile_ms_of none = 30000
reconcile_ms_of (some r) = r.config.timings.reconcile_ms

-- `tick` once it has the ledger.
unfoldable pub on_tick : SyncLedger → ℕ → Clocks → Process → Process
unfolding is_gap is_retry_due request_wake
on_tick ledger now clocks process =
    if not process.temporary
      && (ledger.worker.enabled
          && (not ledger.worker.retry_paused
              && (is_gap clocks
                  || (any (is_retry_due ledger now) (values ledger.routes)
                      || leb (reconcile_ms_of ledger.runtime) (now - process.last_pass_at)))))
    then request_wake process
    else process
