-- ===== src/Core/Executor/Atomic.antt =====
-- core.go, `handle`: what an executed command may change, and that a failed one changes nothing.
use project_ariadne.Base.{
  refl, ◌&&◌, ◌==◌, nat_eq, none, false, inl, inr, ◌≡◌, true, Option, some, arith, Bool, Bool-cases,
  subst, sym,
}
use project_ariadne.Model.Errors.{CoreError, ok, err, Result}
use project_ariadne.State.Restore.{clone_state}
use project_ariadne.State.Defs.{max_uint64, State}
use project_ariadne.State.Snapshots.{Snapshot}
use project_ariadne.Core.Machine.{Machine, Outcome}
use project_ariadne.Core.Commands.{Command, changes_persistent_state}
use project_ariadne.Core.Commands.Frame.{OnlyCounters, IsFramed}
use project_ariadne.Core.Commands.Frame.Execution.{execute-Framed}
use project_ariadne.Core.Executor.{
  Core, handle_execute, conclude, run_on, run_validated, run_command, conclude_validated,
}

-- Where a snapshot validator is configured, a command on persistent state that is answered with an
-- error, by the command, the validator or a check, leaves the core exactly as it was.
pub refused_command_changes_nothing :
    (c : Core) (command : Command) (check : Option (Snapshot → Option CoreError))
    (validator : Snapshot → Option CoreError) (e : CoreError)
    → c.config.snapshot_validator ≡ some validator
    → changes_persistent_state command ≡ true
    → (handle_execute command check c).0 ≡ err e
    → (handle_execute command check c).1 ≡ c
unfolding handle_execute
refused_command_changes_nothing c command check validator e h p q = ground arith

-- The core up to the counters of panes and splits.
pub record OnlyCountersOf (c c' : Core) : Type 0 where
  pub config : c'.config ≡ c.config
  pub queues : c'.queues ≡ c.queues
  pub next_frontend_id : c'.next_frontend_id ≡ c.next_frontend_id
  pub finished : c'.finished ≡ c.finished
  pub machine : OnlyCounters c.machine c'.machine

untouched : (c : Core) → OnlyCountersOf c c
untouched c = record {
  config = refl;
  queues = refl;
  next_frontend_id = refl;
  finished = refl;
  machine = (refl, refl);
}

conclude-refused :
    (c : Core) (r : Result Outcome × Machine) (e : CoreError)
    → IsFramed c.machine r
    → (conclude c r).0 ≡ err e
    → OnlyCountersOf c (conclude c r).1
conclude-refused c (err x, m) e framed h = record {
  config = refl;
  queues = refl;
  next_frontend_id = refl;
  finished = refl;
  machine = framed.error x refl;
}
conclude-refused c (ok (reply, event), m) e framed h = ground arith

conclude_validated-refused :
    (validator : Snapshot → Option CoreError) (c : Core) (r : Result Outcome × Machine)
    (e : CoreError)
    → (conclude_validated validator c r).0 ≡ err e
    → (conclude_validated validator c r).1 ≡ c
conclude_validated-refused validator c (err x, m) e h = refl
conclude_validated-refused validator c (ok (reply, event), m) e h = ground arith

run_validated-refused :
    (validator : Snapshot → Option CoreError) (c : Core) (command : Command) (copy : Option State)
    (e : CoreError)
    → (run_validated validator c command copy).0 ≡ err e
    → (run_validated validator c command copy).1 ≡ c
run_validated-refused validator c command none e h = refl
run_validated-refused validator c command (some copy) e h =
    conclude_validated-refused validator c (run_on c command copy) e h

run_unvalidated-refused :
    (c : Core) (command : Command) (e : CoreError)
    → (conclude c (run_on c command c.machine.state)).0 ≡ err e
    → OnlyCountersOf c (conclude c (run_on c command c.machine.state)).1
run_unvalidated-refused c command e h =
    conclude-refused c (run_on c command c.machine.state) e
      (execute-Framed c.config.max_attention_entries command c.machine) h

run_command-refused :
    (c : Core) (command : Command) (persistent : Bool)
    (validator : Option (Snapshot → Option CoreError)) (e : CoreError)
    → (run_command c command persistent validator).0 ≡ err e
    → OnlyCountersOf c (run_command c command persistent validator).1
run_command-refused c command true (some validator) e h =
    subst (OnlyCountersOf c)
      (sym (run_validated-refused validator c command (clone_state c.machine.state) e h))
      (untouched c)
run_command-refused c command true none e h = run_unvalidated-refused c command e h
run_command-refused c command false validator e h = run_unvalidated-refused c command e h

-- With a validator or without one, a command that is answered with an error has announced nothing
-- and changed nothing but the counters of panes and splits.
pub refused_command_announces_nothing :
    (c : Core) (command : Command) (check : Option (Snapshot → Option CoreError)) (e : CoreError)
    → (handle_execute command check c).0 ≡ err e
    → OnlyCountersOf c (handle_execute command check c).1
unfolding handle_execute
refused_command_announces_nothing c command check e h =
    elim (Bool-cases (changes_persistent_state command && c.machine.state.revision == max_uint64)) [
      | inl p ↦ ground (arith, untouched c)
      | inr p ↦ ground (
        arith,
        untouched c,
        run_command-refused c command (changes_persistent_state command) c.config.snapshot_validator
            e,
      )
    ]
