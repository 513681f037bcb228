-- ===== src/Worker/Passed.antt =====
-- The pieces of a pass keep the invariant of the worker.
use html_inbox.Common.{
  ℕ, ◌≡◌, sym, arith, true, false, ◌||◌, List, [], ◌∷◌, Option, none, some, Text, text_eq, inl, inr,
  Bool-cases, if_cases, lookup-adjust, length-adjust, leb,
}
use html_inbox.Worker.{Process, RunTicket}
use html_inbox.Worker.Tickets.{is_queued, is_running}
use html_inbox.Worker.Passes.{for_ticket, turn, is_stopped, ticket_of}
use html_inbox.Worker.Sound.{
  IsFair, IsServing, IsSound, is_served_by, looking-IsSound, recording-IsSound, serves,
}

-- A pass at a stage that serves nothing but the ticket.
pub fair-IsServing :
    (ticket : Option Text) (process : Process)
    → ((id : Text) → serves process.drain id ≡ true → is_served_by ticket id ≡ true)
    → IsFair process
    → IsServing ticket process
fair-IsServing ticket process served fair = record {
  few = fair.few;
  each = λ id t e.
      let held = fair.each id t e in (λ r. served id (held.0 r), λ a. (held.1 a).0, held.2);
}

-- A pass that serves no ticket yet can begin to serve any.
pub any-IsServing :
    (ticket : Option Text) (process : Process) → IsServing none process → IsServing ticket process
any-IsServing ticket process serving = record {
  few = serving.few;
  each =
      λ id t e. let held = serving.each id t e in (λ r. ground (arith, held.0 r), held.1, held.2);
}

pub turn-IsSound :
    (ticket : Option Text) (deadline : ℕ) (routes : List Text) (now : ℕ) (process : Process)
    → IsServing ticket process
    → IsSound (turn ticket deadline routes now process)
unfolding turn
turn-IsSound ticket deadline [] now process serving =
    recording-IsSound ticket (record process { last_pass_at = now })
      (record { few = serving.few; each = serving.each })
turn-IsSound ticket deadline (route ∷ routes) now process serving =
    if_cases IsSound
      (process.closing || (is_stopped (ticket_of ticket process) || leb deadline now)) _ _
      (λ stop.
        recording-IsSound ticket (record process { last_pass_at = now })
          (record { few = serving.few; each = serving.each }))
      (λ go. looking-IsSound ticket deadline route routes process serving)

-- A change of the ticket that is served neither queues it nor aborts it. Where it leaves it running, the
-- ticket is still served.
unfoldable pub IsTame : Option Text → Option Text → (RunTicket → RunTicket) → Type 0
IsTame ticket after change =
    (t : RunTicket)
    → (is_queued t.state ≡ false → is_queued (change t).state ≡ false)
      × ((change t).is_aborted ≡ t.is_aborted)
      × ((id : Text)
          → is_served_by ticket id ≡ true
          → is_running (change t).state ≡ true
          → is_served_by after id ≡ true)

pub for_ticket-IsServing :
    (ticket after : Option Text) (change : RunTicket → RunTicket) (process : Process)
    → IsTame ticket after change
    → IsServing ticket process
    → IsServing after (for_ticket ticket change process)
unfolding IsTame
for_ticket-IsServing none after change process tame serving = any-IsServing after process serving
for_ticket-IsServing (some served) after change process tame serving = record {
  few = ground (arith, length-adjust served change process.tickets, serving.few);
  each = λ id t e.
      let (old, found, it) = lookup-adjust served id change process.tickets t e in
      let (running_old, aborted_old, closed_old) = serving.each id old found in
      let (unqueued, aborted, ran) = tame old in
      elim (Bool-cases (text_eq served id)) [
        | inl same ↦
            let is : t ≡ change old = ground arith in
            (
              λ r. ran id same (rw (sym is) r),
              λ a. rw is (unqueued (aborted_old (rw (sym aborted, sym is) a))),
              λ c. rw is (unqueued (closed_old c)),
            )
        | inr other ↦
            let is : t ≡ old = ground arith in
            (
              λ r. ground (arith, running_old (rw (sym is) r)),
              λ a. rw is (aborted_old (rw (sym is) a)),
              λ c. rw is (closed_old c),
            )
      ];
}
