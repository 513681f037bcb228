-- ===== src/Worker/Answers.antt =====
-- What the awaits of a pass answer keeps the invariant of the worker.
use html_inbox.Common.{
  ℕ, ◌≡◌, refl, subst, arith, Bool, false, not, ◌&&◌, ◌||◌, List, [], ◌∷◌, Option, none, some, Text,
  text_eq_iff, Dict, lookup, if_cases, map_values, length-map_values, map_values-lookup,
  delete_where, lookup-delete_where, length-delete_where, js,
}
use html_inbox.Ledger.{SyncLedger}
use html_inbox.Worker.{Process, RunTicket, RouteReconciliation, running, routing, ending}
use html_inbox.Worker.Tickets.{at_stage, close, is_queued, is_running, next_queued}
use html_inbox.Worker.Passes.{
  Clocks, begin_pass, completed_ticket, ended_with, failed_attempt, failed_ticket, for_ticket,
  is_own, is_runnable, is_some, is_stale, on_attempt, on_end, on_failure, on_ledger, on_recorded,
  on_route, on_tick, take_request, with_state, is_stopped, ticket_of, with_error, with_routes,
}
use html_inbox.Worker.Sound.{Holds, IsFair, IsServing, IsSound, ending-IsSound, loop_top-IsSound}
use html_inbox.Worker.Kept.{kick-IsSound, request_wake-IsSound}
use html_inbox.Worker.Aborted.{close-IsServing}
use html_inbox.Worker.Passed.{IsTame, any-IsServing, for_ticket-IsServing, turn-IsSound}

take_request-IsServing :
    (ticket : Option Text) (process : Process)
    → IsServing none process
    → IsServing none (take_request ticket process)
unfolding take_request
take_request-IsServing none process serving = record { few = serving.few; each = serving.each }
take_request-IsServing (some id) process serving = serving

begin_pass-IsSound :
    (ticket : Option Text) (ledger : SyncLedger) (now : ℕ) (process : Process)
    → IsServing none process
    → IsSound (begin_pass ticket ledger now process)
unfolding begin_pass IsTame
begin_pass-IsSound ticket ledger now process serving =
    turn-IsSound ticket _ _ now (for_ticket ticket (with_state running) process) (
      for_ticket-IsServing ticket ticket (with_state running) process
        (λ t. (λ q. refl, refl, λ id served r. served)) (any-IsServing ticket process serving))

pub on_ledger-IsSound :
    (ticket : Option Text) (given : Option SyncLedger) (now : ℕ) (process : Process)
    → IsServing none process
    → IsSound (on_ledger ticket given now process)
unfolding on_ledger IsTame ended_with
on_ledger-IsSound ticket none now process serving =
    ending-IsSound (close process) (close-IsServing process serving)
on_ledger-IsSound ticket (some ledger) now process serving =
    let taken = take_request-IsServing ticket process serving in
    if_cases IsSound (not (is_own ledger process)) _ _
      (λ other. ending-IsSound (close process) (close-IsServing process serving))
      (λ own.
        if_cases IsSound ledger.worker.retry_paused _ _
          (λ paused.
            loop_top-IsSound
              (for_ticket ticket (ended_with (js "retries-paused")) (take_request ticket process))
              (for_ticket-IsServing ticket none (ended_with (js "retries-paused"))
                (take_request ticket process) (λ t. (λ q. refl, refl, λ id served r. cc))
                (any-IsServing ticket (take_request ticket process) taken)))
          (λ going.
            if_cases IsSound (not (is_some ticket) && not ledger.worker.enabled) _ _
              (λ disabled. loop_top-IsSound (take_request ticket process) taken)
              (λ enabled.
                begin_pass-IsSound ticket ledger now (take_request ticket process) taken)))

-- An attempt that begins for a ticket that was cancelled, or in a worker that is closing, is aborted.
routing-IsSound :
    (ticket : Option Text) (deadline : ℕ) (route : Text) (routes : List Text) (process : Process)
    → IsServing ticket process
    → IsSound (
        at_stage
          (routing ticket deadline route
            (process.closing || is_stopped (ticket_of ticket process))
            routes)
          process)
routing-IsSound none deadline route routes process serving = record {
  fair = record {
    few = serving.few;
    each = λ id t e. let held = serving.each id t e in (held.0, λ a. (held.1 a, refl), held.2);
    halted = λ c. ground (arith, c);
  };
  unforgotten = λ idle going. cc;
}
routing-IsSound (some served) deadline route routes process serving = record {
  fair = record {
    few = serving.few;
    each = λ id t e.
        let held = serving.each id t e in
        (held.0, λ a. (held.1 a, ground (arith, text_eq_iff served id, e, a)), held.2);
    halted = λ c. ground (arith, c);
  };
  unforgotten = λ idle going. cc;
}

pub on_route-IsSound :
    (ticket : Option Text) (deadline : ℕ) (route : Text) (routes : List Text) (ledger : SyncLedger)
    (unavailable : Bool) (now : ℕ) (process : Process)
    → IsServing ticket process
    → IsSound (on_route ticket deadline route routes ledger unavailable now process)
unfolding on_route IsTame
on_route-IsSound ticket deadline route routes ledger unavailable now process serving =
    if_cases IsSound (not (is_runnable ledger now route)) _ _
      (λ skipped. turn-IsSound ticket deadline routes now process serving)
      (λ due.
        if_cases IsSound unavailable _ _
          (λ missing.
            turn-IsSound ticket deadline routes now
              (for_ticket ticket (with_error (js "runtime-credential-unavailable")) process)
              (for_ticket-IsServing ticket ticket (with_error (js "runtime-credential-unavailable"))
                process (λ t. (λ q. q, refl, λ id served r. served)) serving))
          (λ there. routing-IsSound ticket deadline route routes process serving))

pub on_attempt-IsSound :
    (ticket : Option Text) (deadline : ℕ) (is_aborted : Bool) (routes : List Text)
    (reported : List RouteReconciliation) (threw : Bool) (now : ℕ) (process : Process)
    → IsServing ticket process
    → IsSound (on_attempt ticket deadline is_aborted routes reported threw now process)
unfolding on_attempt IsTame failed_attempt
on_attempt-IsSound ticket deadline is_aborted routes reported threw now process serving =
    let told : IsServing ticket (for_ticket ticket (with_routes reported) process) =
      for_ticket-IsServing ticket ticket (with_routes reported) process
        (λ t. (λ q. q, refl, λ id served r. served)) serving in
    turn-IsSound ticket deadline routes now _ (
      if_cases (IsServing ticket) threw _ _
        (λ e.
          for_ticket-IsServing ticket ticket (failed_attempt is_aborted)
            (for_ticket ticket (with_routes reported) process)
            (λ t. (λ q. q, refl, λ id served r. served)) told)
        (λ e. told))

completed_ticket-IsTame : (ticket : Option Text) → IsTame ticket none completed_ticket
unfolding completed_ticket IsTame
completed_ticket-IsTame ticket t = (λ q. ground arith, ground arith, λ id served r. ground arith)

purged-IsServing :
    (test : RunTicket → Bool) (process : Process)
    → IsServing none process
    → IsServing none
        (record process { tickets = delete_where test process.tickets process.tickets })
purged-IsServing test process serving = record {
  few = ground (arith, length-delete_where test process.tickets process.tickets, serving.few);
  each =
      λ id t e. serving.each id t (lookup-delete_where test process.tickets process.tickets id t e);
}

pub on_recorded-IsSound :
    (ticket : Option Text) (now : ℕ) (process : Process)
    → IsServing ticket process
    → IsSound (on_recorded ticket now process)
unfolding on_recorded
on_recorded-IsSound ticket now process serving = loop_top-IsSound _ (
    purged-IsServing (is_stale now) (for_ticket ticket completed_ticket process) (
      for_ticket-IsServing ticket none completed_ticket process (completed_ticket-IsTame ticket)
        serving))

failed_ticket-neither :
    (t : RunTicket)
    → (is_queued (failed_ticket t).state ≡ false) × (is_running (failed_ticket t).state ≡ false)
unfolding failed_ticket ended_with
failed_ticket-neither t = (ground arith, ground arith)

pub on_failure-IsSound :
    (now : ℕ) (process : Process) → IsFair process → IsSound (on_failure now process)
unfolding on_failure
on_failure-IsSound now process fair =
    ending-IsSound
      (record process {
        last_pass_at = now;
        background_requested = false;
        tickets = map_values failed_ticket process.tickets;
      })
      (record {
        few = ground (arith, length-map_values failed_ticket process.tickets, fair.few);
        each = λ id t e.
            let (old, found, it) = map_values-lookup failed_ticket id process.tickets t e in
            (
              λ r. ground (arith, failed_ticket-neither old),
              λ a. ground (arith, failed_ticket-neither old),
              λ c. ground (arith, failed_ticket-neither old),
            );
      })

-- Where the loop finds no ticket, none is queued.
next_queued-none :
    (tickets : Dict RunTicket) (id : Text) (t : RunTicket)
    → is_some (next_queued tickets) ≡ false
    → lookup id tickets ≡ some t
    → is_queued t.state ≡ false
unfolding next_queued lookup
next_queued-none [] id t e found = cc
next_queued-none ((k, u) ∷ tickets) id t e found = ground (arith, next_queued-none tickets id t)

ended-IsFair :
    (process : Process)
    → IsFair process
    → process.drain ≡ some ending
    → IsFair (record process { drain = none })
ended-IsFair process fair at_end = record {
  few = fair.few;
  each = λ id t e.
      let held : Holds (some ending) process.closing id t =
        subst (λ d. Holds d process.closing id t) at_end (fair.each id t e) in
      (held.0, λ a. ((held.1 a).0, refl), held.2);
  halted = λ c. refl;
}

pub on_end-IsSound :
    (process : Process) → IsFair process → process.drain ≡ some ending → IsSound (on_end process)
unfolding on_end
on_end-IsSound process fair at_end =
    let idle = ended-IsFair process fair at_end in
    if_cases IsSound
      (not process.closing
        && (is_some (next_queued process.tickets) || process.background_requested))
      _ _ (λ again. kick-IsSound (record process { drain = none }) idle)
      (λ over. record {
        fair = idle;
        unforgotten = λ i going.
            (ground arith, λ id t e. next_queued-none process.tickets id t (ground arith) e);
      })

pub on_tick-IsSound :
    (ledger : SyncLedger) (now : ℕ) (clocks : Clocks) (process : Process)
    → IsSound process
    → IsSound (on_tick ledger now clocks process)
unfolding on_tick
on_tick-IsSound ledger now clocks process sound =
    if_cases IsSound _ _ _ (λ due. request_wake-IsSound process sound) (λ rest. sound)
