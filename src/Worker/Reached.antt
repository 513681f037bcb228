-- ===== src/Worker/Reached.antt =====
-- The invariant of the worker holds of every process that events lead to.
use html_inbox.Common.{
  ℕ, ◌≡◌, refl, subst, arith, true, option_cases, Bool, Option, none, some, Text, lookup,
}
use html_inbox.Worker.{Process, Stage, reading, looking, routing, recording, ending}
use html_inbox.Worker.Events.{
  Answer, Event, Reach, cancelling, draining, ended, failed, here, looked, new_process, next,
  quiescing, read, recorded, resume, routed, run, started, step, stopping, ticking, waking,
}
use html_inbox.Worker.Sound.{IsServing, IsSound, is_served_by, serves}
use html_inbox.Worker.Kept.{kick-IsSound, request_run-IsSound, request_wake-IsSound}
use html_inbox.Worker.Aborted.{cancel-IsSound, close-IsSound, quiesce-IsSound}
use html_inbox.Worker.Passed.{fair-IsServing}
use html_inbox.Worker.Answers.{
  on_attempt-IsSound, on_end-IsSound, on_failure-IsSound, on_ledger-IsSound, on_recorded-IsSound,
  on_route-IsSound, on_tick-IsSound,
}

staged-IsServing :
    (ticket : Option Text) (stage : Stage) (process : Process)
    → ((id : Text) → serves (some stage) id ≡ true → is_served_by ticket id ≡ true)
    → process.drain ≡ some stage
    → IsSound process
    → IsServing ticket process
staged-IsServing ticket stage process served at sound =
    fair-IsServing ticket process (λ id s. served id (subst (λ d. serves d id ≡ true) at s))
      sound.fair

resume-IsSound :
    (stage : Stage) (given : Answer) (now : ℕ) (process : Process)
    → process.drain ≡ some stage
    → IsSound process
    → IsSound (resume stage given now process)
unfolding resume
resume-IsSound (reading ticket) (read ledger) now process at sound =
    on_ledger-IsSound ticket ledger now process
      (staged-IsServing none (reading ticket) process (λ id s. cc) at sound)
resume-IsSound (reading ticket) (looked ledger unavailable) now process at sound = sound
resume-IsSound (reading ticket) (routed reported threw) now process at sound = sound
resume-IsSound (reading ticket) recorded now process at sound = sound
resume-IsSound (reading ticket) failed now process at sound =
    on_failure-IsSound now process sound.fair
resume-IsSound (reading ticket) ended now process at sound = sound
resume-IsSound (looking ticket deadline route routes) (read ledger) now process at sound = sound
resume-IsSound (looking ticket deadline route routes) (looked ledger unavailable) now process at
      sound =
    on_route-IsSound ticket deadline route routes ledger unavailable now process
      (staged-IsServing ticket (looking ticket deadline route routes) process (λ id s. s) at sound)
resume-IsSound (looking ticket deadline route routes) (routed reported threw) now process at sound =
    sound
resume-IsSound (looking ticket deadline route routes) recorded now process at sound = sound
resume-IsSound (looking ticket deadline route routes) failed now process at sound =
    on_failure-IsSound now process sound.fair
resume-IsSound (looking ticket deadline route routes) ended now process at sound = sound
resume-IsSound (routing ticket deadline route is_aborted routes) (read ledger) now process at
      sound =
    sound
resume-IsSound (routing ticket deadline route is_aborted routes) (looked ledger unavailable) now
      process at sound =
    sound
resume-IsSound (routing ticket deadline route is_aborted routes) (routed reported threw) now process
      at sound =
    on_attempt-IsSound ticket deadline is_aborted routes reported threw now process (
      staged-IsServing ticket (routing ticket deadline route is_aborted routes) process (λ id s. s)
        at sound)
resume-IsSound (routing ticket deadline route is_aborted routes) recorded now process at sound =
    sound
resume-IsSound (routing ticket deadline route is_aborted routes) failed now process at sound = sound
resume-IsSound (routing ticket deadline route is_aborted routes) ended now process at sound = sound
resume-IsSound (recording ticket) (read ledger) now process at sound = sound
resume-IsSound (recording ticket) (looked ledger unavailable) now process at sound = sound
resume-IsSound (recording ticket) (routed reported threw) now process at sound = sound
resume-IsSound (recording ticket) recorded now process at sound =
    on_recorded-IsSound ticket now process
      (staged-IsServing ticket (recording ticket) process (λ id s. s) at sound)
resume-IsSound (recording ticket) failed now process at sound =
    on_failure-IsSound now process sound.fair
resume-IsSound (recording ticket) ended now process at sound = sound
resume-IsSound ending (read ledger) now process at sound = sound
resume-IsSound ending (looked ledger unavailable) now process at sound = sound
resume-IsSound ending (routed reported threw) now process at sound = sound
resume-IsSound ending recorded now process at sound = sound
resume-IsSound ending failed now process at sound = sound
resume-IsSound ending ended now process at sound = on_end-IsSound process sound.fair at

step-IsSound :
    (e : Event) (now : ℕ) (process : Process) → IsSound process → IsSound (step e now process)
unfolding step
step-IsSound (run request) now process sound = request_run-IsSound now request process sound
step-IsSound (cancelling id) now process sound = cancel-IsSound id process sound
step-IsSound waking now process sound = request_wake-IsSound process sound
step-IsSound (quiescing route) now process sound = quiesce-IsSound route process sound
step-IsSound (ticking ledger clocks) now process sound =
    on_tick-IsSound ledger now clocks process sound
step-IsSound (draining given) now process sound =
    option_cases IsSound process.drain _ _ (λ idle. sound)
      (λ stage at. resume-IsSound stage given now process at sound)
step-IsSound stopping now process sound = close-IsSound process sound

started-IsSound :
    (temporary : Bool) (storage_incarnation : Text) (config_revision : ℕ)
    → IsSound (started temporary storage_incarnation config_revision)
unfolding started lookup
started-IsSound temporary storage_incarnation config_revision =
    kick-IsSound (new_process temporary storage_incarnation config_revision)
      (record { few = ground arith; each = λ id t e. ground (arith, e); halted = λ c. refl })

-- The worker has started, and requests, cancellations, wakes, ticks and the answers that its loop waits for
-- have come in whatever order. It holds at most 32 tickets; only the ticket that its pass serves is running;
-- a ticket that was aborted is not queued, and an attempt for it is aborted; once the worker is closing, no
-- ticket is queued and no attempt goes on; and while its loop is not at work and it is not closing, no pass is asked for and no
-- ticket is queued.
pub Reach-IsOrderly :
    (temporary : Bool) (storage_incarnation : Text) (config_revision : ℕ) (process : Process)
    → Reach (started temporary storage_incarnation config_revision) process
    → IsSound process
Reach-IsOrderly temporary storage_incarnation config_revision process here =
    started-IsSound temporary storage_incarnation config_revision
Reach-IsOrderly temporary storage_incarnation config_revision process
      (next {process = before} reach e now) =
    step-IsSound e now before
      (Reach-IsOrderly temporary storage_incarnation config_revision before reach)
