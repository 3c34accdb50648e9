-- ===== src/Core/Executor/Handling.antt =====
-- core.go, `handle`: the shape of the core after a command.
use project_ariadne.Base.{
  refl, ◌&&◌, ◌==◌, nat_eq, none, false, ◌≡◌, ◌≢◌, true, Option, some, arith, Bool, ◌∙◌, ap, ℕ,
}
use project_ariadne.Model.Errors.{CoreError, ok, err, Result}
use project_ariadne.State.Restore.{clone_state}
use project_ariadne.State.Restore.Counters.{clone_state-counters}
use project_ariadne.State.Defs.{max_uint64, State}
use project_ariadne.State.Snapshots.{Snapshot}
use project_ariadne.Core.Events.{Event, Reply}
use project_ariadne.Core.Machine.{Machine, Outcome}
use project_ariadne.Core.Commands.{Command, changes_persistent_state}
use project_ariadne.Core.Commands.Frame.Execution.{execute-Framed, execute-quiet}
use project_ariadne.Core.Executor.{
  Core, handle_execute, announce_event, settle, conclude, run_on, run_validated, run_command,
  conclude_validated, verdict, accept_or_roll_back, unless_refused, checked_by,
}

-- A new machine with the old revision, alone or with an event on top of it; the latter only below
-- the largest revision.
pub data Handled (c : Core) : Core → Type 0 where
  kept :
      (m : Machine)
      → m.state.revision ≡ c.machine.state.revision
      → Handled c (record c { machine = m })
  told :
      (m : Machine) (event : Event)
      → m.state.revision ≡ c.machine.state.revision
      → c.machine.state.revision ≢ max_uint64
      → Handled c (announce_event c m event)

-- An event comes with a revision that can go up.
abbrev pub Allowed : Core → Result Outcome × Machine → Type 0
Allowed c r =
    (reply : Reply) (event : Event)
    → r.0 ≡ ok (reply, some event)
    → c.machine.state.revision ≢ max_uint64

settle-Handled :
    (c : Core) (reply : Reply) (m : Machine) (event : Option Event)
    → Allowed c (ok (reply, event), m)
    → m.state.revision ≡ c.machine.state.revision
    → Handled c (settle c m event)
settle-Handled c reply m none allowed h = kept m h
settle-Handled c reply m (some event) allowed h = told m event h (allowed reply event refl)

conclude-Handled :
    (c : Core) (r : Result Outcome × Machine)
    → Allowed c r
    → r.1.state.revision ≡ c.machine.state.revision
    → Handled c (conclude c r).1
conclude-Handled c (err x, m) allowed h = kept m h
conclude-Handled c (ok (reply, event), m) allowed h = settle-Handled c reply m event allowed h

accept_or_roll_back-Handled :
    (c : Core) (reply : Reply) (m : Machine) (event : Option Event) (e : Option CoreError)
    → Handled c (settle c m event)
    → Handled c (accept_or_roll_back c reply m event e).1
accept_or_roll_back-Handled c reply m event none h = h
accept_or_roll_back-Handled c reply m event (some e) h = kept c.machine refl

conclude_validated-Handled :
    (validator : Snapshot → Option CoreError) (c : Core) (r : Result Outcome × Machine)
    → Allowed c r
    → r.1.state.revision ≡ c.machine.state.revision
    → Handled c (conclude_validated validator c r).1
conclude_validated-Handled validator c (err x, m) allowed h = kept c.machine refl
conclude_validated-Handled validator c (ok (reply, event), m) allowed h =
    accept_or_roll_back-Handled c reply m event (verdict validator m.state event)
      (settle-Handled c reply m event allowed h)

-- The command and its revision on the machine that it runs on.
pub run_on-revision :
    (c : Core) (command : Command) (s : State)
    → s.revision ≡ c.machine.state.revision
    → (run_on c command s).1.state.revision ≡ c.machine.state.revision
run_on-revision c command s h =
    (execute-Framed c.config.max_attention_entries command
      (record c.machine { state = s })).revision
    ∙ h

run_validated-Handled :
    (validator : Snapshot → Option CoreError) (c : Core) (command : Command) (copy : Option State)
    → clone_state c.machine.state ≡ copy
    → c.machine.state.revision ≢ max_uint64
    → Handled c (run_validated validator c command copy).1
run_validated-Handled validator c command none e h = kept c.machine refl
run_validated-Handled validator c command (some copy) e h =
    conclude_validated-Handled validator c (run_on c command copy) (λ reply event _. h)
      (run_on-revision c command copy
        (ap (λ (x : ℕ × ℕ × ℕ × ℕ × ℕ). x.0) (clone_state-counters c.machine.state copy e)))

run_unvalidated-Handled :
    (c : Core) (command : Command)
    → Allowed c (run_on c command c.machine.state)
    → Handled c (conclude c (run_on c command c.machine.state)).1
run_unvalidated-Handled c command allowed =
    conclude-Handled c (run_on c command c.machine.state) allowed
      (run_on-revision c command c.machine.state refl)

-- A command on a frontend's focus has no event to announce.
pub focus-Allowed :
    (c : Core) (command : Command)
    → changes_persistent_state command ≡ false
    → Allowed c (run_on c command c.machine.state)
focus-Allowed c command h reply event e = ground (
  arith,
  execute-quiet c.config.max_attention_entries command c.machine
      (run_on c command c.machine.state).1 reply (some event) h,
)

run_command-Handled :
    (c : Core) (command : Command) (persistent : Bool)
    (validator : Option (Snapshot → Option CoreError))
    → changes_persistent_state command ≡ persistent
    → (persistent ≡ true → c.machine.state.revision ≢ max_uint64)
    → Handled c (run_command c command persistent validator).1
run_command-Handled c command true (some validator) e h =
    run_validated-Handled validator c command (clone_state c.machine.state) refl (h refl)
run_command-Handled c command true none e h =
    run_unvalidated-Handled c command (λ reply event _. h refl)
run_command-Handled c command false validator e h =
    run_unvalidated-Handled c command (focus-Allowed c command e)

unless_refused-Handled :
    (c : Core) (command : Command) (refused : Option CoreError) (overflow : Bool)
    → (changes_persistent_state command && c.machine.state.revision == max_uint64) ≡ overflow
    → Handled c (unless_refused refused c command).1
unless_refused-Handled c command (some e) overflow h = kept c.machine refl
unless_refused-Handled c command none true h = rw h (kept c.machine refl)
unless_refused-Handled c command none false h = rw h (
    run_command-Handled c command (changes_persistent_state command) c.config.snapshot_validator
      refl (λ p. ground (arith, h, p)))

-- A command leaves the core with the old revision and its queues as they were, or announces one
-- event, and then the old revision was not the largest.
pub handle_execute-Handled :
    (c : Core) (command : Command) (check : Option (Snapshot → Option CoreError))
    → Handled c (handle_execute command check c).1
unfolding handle_execute
handle_execute-Handled c command check =
    unless_refused-Handled c command (checked_by check c.machine.state)
      (changes_persistent_state command && c.machine.state.revision == max_uint64) refl
