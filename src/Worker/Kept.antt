-- ===== src/Worker/Kept.antt =====
-- Requests, cancellations and the end of the worker keep its invariant.
use html_inbox.Common.{
  ℕ, ◌<◌, ◌≡◌, subst, arith, true, false, none, text_eq, lookup, put, lookup-put, length,
  length-put, inl, inr, Bool-cases, if_cases, option_cases, Result,
}
use html_inbox.Worker.{Process, RunRequest, TicketState}
use html_inbox.Worker.Tickets.{is_refused, kick, max_tickets, new_ticket, request_run, request_wake}
use html_inbox.Worker.Sound.{Holds, IsFair, IsServing, IsSound, loop_top-IsSound}

fair-IsServing :
    (process : Process) → IsFair process → process.drain ≡ none → IsServing none process
fair-IsServing process fair idle = record {
  few = fair.few;
  each = λ id t e.
      let held : Holds none process.closing id t =
        subst (λ d. Holds d process.closing id t) idle (fair.each id t e) in
      (held.0, λ a. (held.1 a).0, held.2);
}

-- After `kick` nothing that was asked for is forgotten.
pub kick-IsSound : (process : Process) → IsFair process → IsSound (kick process)
unfolding kick
kick-IsSound process fair =
    option_cases IsSound process.drain _ _
      (λ idle.
        if_cases IsSound process.closing _ _
          (λ c. record { fair = fair; unforgotten = λ i going. ground (arith, c) })
          (λ c. loop_top-IsSound process (fair-IsServing process fair idle)))
      (λ stage working. record { fair = fair; unforgotten = λ idle going. ground (arith, working) })

pub request_wake-IsSound : (process : Process) → IsSound process → IsSound (request_wake process)
unfolding request_wake
request_wake-IsSound process sound =
    kick-IsSound (record process { background_requested = true })
      (record { few = sound.fair.few; each = sound.fair.each; halted = sound.fair.halted })

requested-IsFair :
    (process : Process) (run : RunRequest)
    → IsFair process
    → process.closing ≡ false
    → length process.tickets < max_tickets
    → IsFair (record process { tickets = put run.ticket_id (new_ticket run) process.tickets })
requested-IsFair process run fair going few = record {
  few = ground (arith, length-put run.ticket_id (new_ticket run) process.tickets);
  each = λ id t e. elim (Bool-cases (text_eq run.ticket_id id)) [
    | inl same ↦
        let it : new_ticket run ≡ t =
          ground (arith, lookup-put run.ticket_id id (new_ticket run) process.tickets) in
        subst (λ u. Holds process.drain process.closing id u) it
          (λ r. cc, λ a. cc, λ c. ground (arith, going))
    | inr other ↦
        fair.each id t
          (ground (arith, lookup-put run.ticket_id id (new_ticket run) process.tickets))
  ];
  halted = fair.halted;
}

accepted :
    (now : ℕ) (run : RunRequest) (process : Process)
    → is_refused now run process ≡ false
    → (process.closing ≡ false) × (length process.tickets < max_tickets)
unfolding is_refused
accepted now run process e = (ground arith, ground arith)

pub request_run-IsSound :
    (now : ℕ) (run : RunRequest) (process : Process)
    → IsSound process
    → IsSound (request_run now run process).1
unfolding request_run
request_run-IsSound now run process sound =
    if_cases (λ (r : Result TicketState × Process). IsSound r.1) (is_refused now run process) _ _
      (λ refused. sound)
      (λ taken.
        option_cases (λ (r : Result TicketState × Process). IsSound r.1)
          (lookup run.ticket_id process.tickets) _ _
          (λ missing.
            let (going, few) = accepted now run process taken in
            kick-IsSound
              (record process { tickets = put run.ticket_id (new_ticket run) process.tickets })
              (requested-IsFair process run sound.fair going few))
          (λ previous found. sound))
