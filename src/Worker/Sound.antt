-- ===== src/Worker/Sound.antt =====
-- The invariant of the worker.
use html_inbox.Common.{
  ℕ, ◌≤◌, ◌≡◌, refl, Bool, true, false, not, ◌||◌, List, Option, none, some, Text, text_eq, lookup,
  length, if_cases, option_cases,
}
use html_inbox.Worker.{Process, RunTicket, Stage, reading, looking, routing, recording, ending}
use html_inbox.Worker.Tickets.{at_stage, is_queued, is_running, loop_top, max_tickets, next_queued}

-- The ticket is the one that is served.
abbrev pub is_served_by : Option Text → Text → Bool
is_served_by none id = false
is_served_by (some served) id = text_eq served id

-- The stage is one of a pass for the ticket.
abbrev pub serves : Option Stage → Text → Bool
serves none id = false
serves (some (reading ticket)) id = false
serves (some (looking ticket deadline route routes)) id = is_served_by ticket id
serves (some (routing ticket deadline route is_aborted routes)) id = is_served_by ticket id
serves (some (recording ticket)) id = is_served_by ticket id
serves (some ending) id = false

-- An attempt for the ticket is aborted.
abbrev pub obeys : Option Stage → Text → Bool
obeys none id = true
obeys (some (reading ticket)) id = true
obeys (some (looking ticket deadline route routes)) id = true
obeys (some (routing ticket deadline route is_aborted routes)) id =
    not (is_served_by ticket id) || is_aborted
obeys (some (recording ticket)) id = true
obeys (some ending) id = true

-- No attempt goes on.
abbrev pub is_halted : Option Stage → Bool
is_halted none = true
is_halted (some (reading ticket)) = true
is_halted (some (looking ticket deadline route routes)) = true
is_halted (some (routing ticket deadline route is_aborted routes)) = is_aborted
is_halted (some (recording ticket)) = true
is_halted (some ending) = true

-- What holds of every ticket.
abbrev pub Holds : Option Stage → Bool → Text → RunTicket → Type 0
Holds drain closing id t =
    (is_running t.state ≡ true → serves drain id ≡ true)
    × (t.is_aborted ≡ true → (is_queued t.state ≡ false) × (obeys drain id ≡ true))
    × (closing ≡ true → is_queued t.state ≡ false)

-- All of the invariant but that nothing is forgotten.
pub record IsFair (process : Process) : Type 0 where
  pub few : length process.tickets ≤ max_tickets
  pub each :
      (id : Text) (t : RunTicket)
      → lookup id process.tickets ≡ some t
      → Holds process.drain process.closing id t
  pub halted : process.closing ≡ true → is_halted process.drain ≡ true

pub record IsSound (process : Process) : Type 0 where
  pub fair : IsFair process
  -- While nothing is at work, nothing is asked for.
  pub unforgotten :
      process.drain ≡ none
      → process.closing ≡ false
      → (process.background_requested ≡ false)
        × ((id : Text) (t : RunTicket)
            → lookup id process.tickets ≡ some t
            → is_queued t.state ≡ false)

-- Every running ticket is the one that the pass serves.
pub record IsServing (ticket : Option Text) (process : Process) : Type 0 where
  pub few : length process.tickets ≤ max_tickets
  pub each :
      (id : Text) (t : RunTicket)
      → lookup id process.tickets ≡ some t
      → (is_running t.state ≡ true → is_served_by ticket id ≡ true)
        × (t.is_aborted ≡ true → is_queued t.state ≡ false)
        × (process.closing ≡ true → is_queued t.state ≡ false)

-- A stage of the pass that is no attempt.
staged-IsSound :
    (ticket : Option Text) (process : Process) (stage : Stage)
    → ((id : Text) → is_served_by ticket id ≡ true → serves (some stage) id ≡ true)
    → ((id : Text) → obeys (some stage) id ≡ true)
    → is_halted (some stage) ≡ true
    → IsServing ticket process
    → IsSound (at_stage stage process)
staged-IsSound ticket process stage served obeyed still serving = record {
  fair = record {
    few = serving.few;
    each = λ id t e.
        let (running, aborted, closed) = serving.each id t e in
        (λ r. served id (running r), λ a. (aborted a, obeyed id), closed);
    halted = λ c. still;
  };
  unforgotten = λ idle going. cc;
}

pub looking-IsSound :
    (ticket : Option Text) (deadline : ℕ) (route : Text) (routes : List Text) (process : Process)
    → IsServing ticket process
    → IsSound (at_stage (looking ticket deadline route routes) process)
looking-IsSound ticket deadline route routes process serving =
    staged-IsSound ticket process (looking ticket deadline route routes) (λ id h. h) (λ id. refl)
      refl serving

pub recording-IsSound :
    (ticket : Option Text) (process : Process)
    → IsServing ticket process
    → IsSound (at_stage (recording ticket) process)
recording-IsSound ticket process serving =
    staged-IsSound ticket process (recording ticket) (λ id h. h) (λ id. refl) refl serving

pub reading-IsSound :
    (ticket : Option Text) (process : Process)
    → IsServing none process
    → IsSound (at_stage (reading ticket) process)
reading-IsSound ticket process serving =
    staged-IsSound none process (reading ticket) (λ id h. cc) (λ id. refl) refl serving

pub ending-IsSound :
    (process : Process) → IsServing none process → IsSound (at_stage ending process)
ending-IsSound process serving =
    staged-IsSound none process ending (λ id h. cc) (λ id. refl) refl serving

pub loop_top-IsSound : (process : Process) → IsServing none process → IsSound (loop_top process)
unfolding loop_top
loop_top-IsSound process serving =
    if_cases IsSound process.closing _ _ (λ c. ending-IsSound process serving)
      (λ c.
        option_cases IsSound (next_queued process.tickets) _ _
          (λ missing.
            if_cases IsSound process.background_requested _ _
              (λ b. reading-IsSound none process serving) (λ b. ending-IsSound process serving))
          (λ id found. reading-IsSound (some id) process serving))
