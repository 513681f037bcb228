-- ===== src/Worker/Aborted.antt =====
-- Cancellations, the end of the worker and the end of a route's attempt keep its invariant.
use html_inbox.Common.{
  ◌≡◌, refl, subst, arith, Bool, true, false, ◌||◌, Option, none, some, Text, text_eq, text_eq_iff,
  lookup, inl, inr, Bool-cases, if_cases, option_cases, adjust, lookup-adjust, length-adjust,
  map_values, length-map_values, map_values-lookup,
}
use html_inbox.Worker.{Process, RunTicket, Stage, reading, looking, routing, recording, ending}
use html_inbox.Worker.Tickets.{
  abort_attempt, abort_for, cancel, cancelled_ticket, close, is_queued, is_running, quiesce,
}
use html_inbox.Worker.Sound.{Holds, IsFair, IsServing, IsSound, is_halted, obeys, serves}

-- The same stage, but that an attempt may be aborted.
record IsAborting (before after : Option Stage) : Type 0 where
  same : (id : Text) → serves after id ≡ serves before id
  obeyed : (id : Text) → obeys before id ≡ true → obeys after id ≡ true
  still : is_halted before ≡ true → is_halted after ≡ true
  idle : after ≡ none → before ≡ none

unchanged-IsAborting : (drain : Option Stage) → IsAborting drain drain
unchanged-IsAborting drain = record {
  same = λ i. refl;
  obeyed = λ i h. h;
  still = λ h. h;
  idle = λ e. e;
}

abort_for-IsAborting : (id : Text) (drain : Option Stage) → IsAborting drain (abort_for id drain)
unfolding abort_for
abort_for-IsAborting id none = unchanged-IsAborting none
abort_for-IsAborting id (some (reading ticket)) = unchanged-IsAborting (some (reading ticket))
abort_for-IsAborting id (some (looking ticket deadline route routes)) =
    unchanged-IsAborting (some (looking ticket deadline route routes))
abort_for-IsAborting id (some (routing none deadline route is_aborted routes)) =
    unchanged-IsAborting (some (routing none deadline route is_aborted routes))
abort_for-IsAborting id (some (routing (some other) deadline route is_aborted routes)) = record {
  same = λ i. refl;
  obeyed = λ i h. ground arith;
  still = λ h. ground arith;
  idle = λ e. cc;
}
abort_for-IsAborting id (some (recording ticket)) = unchanged-IsAborting (some (recording ticket))
abort_for-IsAborting id (some ending) = unchanged-IsAborting (some ending)

abort_attempt-IsAborting :
    (test : Text → Bool) (drain : Option Stage) → IsAborting drain (abort_attempt test drain)
unfolding abort_attempt
abort_attempt-IsAborting test none = unchanged-IsAborting none
abort_attempt-IsAborting test (some (reading ticket)) = unchanged-IsAborting (some (reading ticket))
abort_attempt-IsAborting test (some (looking ticket deadline route routes)) =
    unchanged-IsAborting (some (looking ticket deadline route routes))
abort_attempt-IsAborting test (some (routing ticket deadline route is_aborted routes)) = record {
  same = λ i. refl;
  obeyed = λ i h. ground arith;
  still = λ h. ground arith;
  idle = λ e. cc;
}
abort_attempt-IsAborting test (some (recording ticket)) =
    unchanged-IsAborting (some (recording ticket))
abort_attempt-IsAborting test (some ending) = unchanged-IsAborting (some ending)

-- A cancellation aborts the attempt for its ticket.
obeys-abort_for :
    (id : Text) (drain : Option Stage) (j : Text)
    → text_eq id j ≡ true
    → obeys (abort_for id drain) j ≡ true
unfolding abort_for
obeys-abort_for id none j e = refl
obeys-abort_for id (some (reading ticket)) j e = refl
obeys-abort_for id (some (looking ticket deadline route routes)) j e = refl
obeys-abort_for id (some (routing none deadline route is_aborted routes)) j e = refl
obeys-abort_for id (some (routing (some other) deadline route is_aborted routes)) j e =
    ground (arith, (text_eq_iff id j).0 e)
obeys-abort_for id (some (recording ticket)) j e = refl
obeys-abort_for id (some ending) j e = refl

-- The end of the worker aborts the attempt at work, whatever it is for.
abort_attempt-all :
    (drain : Option Stage)
    → (is_halted (abort_attempt (λ route. true) drain) ≡ true)
      × ((id : Text) → obeys (abort_attempt (λ route. true) drain) id ≡ true)
unfolding abort_attempt
abort_attempt-all none = (refl, λ id. refl)
abort_attempt-all (some (reading ticket)) = (refl, λ id. refl)
abort_attempt-all (some (looking ticket deadline route routes)) = (refl, λ id. refl)
abort_attempt-all (some (routing ticket deadline route is_aborted routes)) =
    (ground arith, λ id. ground arith)
abort_attempt-all (some (recording ticket)) = (refl, λ id. refl)
abort_attempt-all (some ending) = (refl, λ id. refl)

aborting-Holds :
    {before after : Option Stage} (closing : Bool) (id : Text) (t : RunTicket)
    → IsAborting before after
    → Holds before closing id t
    → Holds after closing id t
aborting-Holds closing id t aborting holds = (
  λ r. rw (aborting.same id) (holds.0 r),
  λ a. ((holds.1 a).0, aborting.obeyed id (holds.1 a).1),
  holds.2,
)

-- A ticket that a cancellation has met is neither queued nor running.
cancelled_ticket-neither :
    (t : RunTicket)
    → (is_queued (cancelled_ticket t).state ≡ false)
      × (is_running (cancelled_ticket t).state ≡ false)
unfolding cancelled_ticket
cancelled_ticket-neither t = (ground arith, ground arith)

cancelled-Holds :
    (drain : Option Stage) (closing : Bool) (id : Text) (t : RunTicket)
    → obeys drain id ≡ true
    → Holds drain closing id (cancelled_ticket t)
cancelled-Holds drain closing id t obeyed = (
  λ r. ground (arith, (cancelled_ticket-neither t).1),
  λ a. ((cancelled_ticket-neither t).0, obeyed),
  λ c. (cancelled_ticket-neither t).0,
)

-- Only the stage changes, and only by an abort.
aborted-IsSound :
    (process : Process) (after : Option Stage)
    → IsAborting process.drain after
    → IsSound process
    → IsSound (record process { drain = after })
aborted-IsSound process after aborting sound = record {
  fair = record {
    few = sound.fair.few;
    each = λ id t e. aborting-Holds process.closing id t aborting (sound.fair.each id t e);
    halted = λ c. aborting.still (sound.fair.halted c);
  };
  unforgotten = λ idle going. sound.unforgotten (aborting.idle idle) going;
}

pub quiesce-IsSound :
    (route : Option Text) (process : Process) → IsSound process → IsSound (quiesce route process)
unfolding quiesce
quiesce-IsSound none process sound =
    aborted-IsSound process (abort_attempt (λ route. true) process.drain)
      (abort_attempt-IsAborting (λ route. true) process.drain) sound
quiesce-IsSound (some id) process sound =
    aborted-IsSound process (abort_attempt (text_eq id) process.drain)
      (abort_attempt-IsAborting (text_eq id) process.drain) sound

cancelled_process-each :
    (id : Text) (process : Process) (j : Text) (t : RunTicket)
    → IsFair process
    → lookup j (adjust id cancelled_ticket process.tickets) ≡ some t
    → Holds (abort_for id process.drain) process.closing j t
cancelled_process-each id process j t fair e =
    let (old, found, it) = lookup-adjust id j cancelled_ticket process.tickets t e in
    elim (Bool-cases (text_eq id j)) [
      | inl same ↦
          let changed : cancelled_ticket old ≡ t = ground arith in
          subst (λ u. Holds (abort_for id process.drain) process.closing j u) changed
            (cancelled-Holds (abort_for id process.drain) process.closing j old
              (obeys-abort_for id process.drain j same))
      | inr other ↦
          let kept : old ≡ t = ground arith in
          subst (λ u. Holds (abort_for id process.drain) process.closing j u) kept
            (aborting-Holds process.closing j old (abort_for-IsAborting id process.drain)
              (fair.each j old found))
    ]

cancelled_process-queued :
    (id : Text) (process : Process) (j : Text) (t : RunTicket)
    → ((i : Text) (u : RunTicket) → lookup i process.tickets ≡ some u → is_queued u.state ≡ false)
    → lookup j (adjust id cancelled_ticket process.tickets) ≡ some t
    → is_queued t.state ≡ false
cancelled_process-queued id process j t unqueued e =
    let (old, found, it) = lookup-adjust id j cancelled_ticket process.tickets t e in
    ground (arith, unqueued j old found, cancelled_ticket-neither old)

pub cancel-IsSound : (id : Text) (process : Process) → IsSound process → IsSound (cancel id process)
unfolding cancel
cancel-IsSound id process sound =
    option_cases IsSound (lookup id process.tickets) _ _ (λ missing. sound)
      (λ ticket found.
        if_cases IsSound (is_queued ticket.state || is_running ticket.state) _ _
          (λ alive. record {
            fair = record {
              few =
                  ground (arith, length-adjust id cancelled_ticket process.tickets, sound.fair.few);
              each = λ j t e. cancelled_process-each id process j t sound.fair e;
              halted = λ c. (abort_for-IsAborting id process.drain).still (sound.fair.halted c);
            };
            unforgotten = λ idle going.
                let (calm, unqueued) =
                  sound.unforgotten ((abort_for-IsAborting id process.drain).idle idle) going in
                (calm, λ j t e. cancelled_process-queued id process j t unqueued e);
          })
          (λ over. sound))

-- Every ticket is cancelled.
pub close-IsServing : (process : Process) → IsServing none process → IsServing none (close process)
unfolding close
close-IsServing process serving =
    if_cases (IsServing none) process.closing _ _ (λ already. serving)
      (λ first. record {
        few = ground (arith, length-map_values cancelled_ticket process.tickets, serving.few);
        each = λ id t e.
            let (old, found, it) = map_values-lookup cancelled_ticket id process.tickets t e in
            (
              λ r. ground (arith, cancelled_ticket-neither old),
              λ a. ground (arith, cancelled_ticket-neither old),
              λ c. ground (arith, cancelled_ticket-neither old),
            );
      })

closed-IsSound :
    (process : Process)
    → IsFair process
    → IsSound (record process {
      closing = true;
      tickets = map_values cancelled_ticket process.tickets;
      drain = abort_attempt (λ route. true) process.drain;
    })
closed-IsSound process fair = record {
  fair = record {
    few = ground (arith, length-map_values cancelled_ticket process.tickets, fair.few);
    each = λ id t e.
        let (old, found, it) = map_values-lookup cancelled_ticket id process.tickets t e in
        let changed : cancelled_ticket old ≡ t = ground arith in
        subst (λ u. Holds (abort_attempt (λ route. true) process.drain) true id u) changed
          (cancelled-Holds (abort_attempt (λ route. true) process.drain) true id old
            ((abort_attempt-all process.drain).1 id));
    halted = λ c. (abort_attempt-all process.drain).0;
  };
  unforgotten = λ idle going. cc;
}

pub close-IsSound : (process : Process) → IsSound process → IsSound (close process)
unfolding close
close-IsSound process sound =
    if_cases IsSound process.closing _ _ (λ already. sound)
      (λ first. closed-IsSound process sound.fair)
