-- ===== src/Core/Executor/Answers.antt =====
-- core.go, `handle` at `requestExecute`: the answer, the run of the command, and what is announced.
use project_ariadne.Base.{
  ◌&&◌, ◌==◌, nat_eq, none, false, ◌≡◌, ◌≢◌, true, Option, some, arith, Bool, ap, ℕ, refl, ◌⊎◌, inl,
  inr,
}
use project_ariadne.Model.Errors.{CoreError, ok, err, Result}
use project_ariadne.State.Restore.{clone_state}
use project_ariadne.State.Restore.Counters.{clone_state-counters}
use project_ariadne.State.Defs.{max_uint64, State}
use project_ariadne.State.Snapshots.{Snapshot}
use project_ariadne.Core.Events.{Event, Reply}
use project_ariadne.Core.Machine.{Machine, Outcome}
use project_ariadne.Core.Commands.{Command, execute, changes_persistent_state}
use project_ariadne.Core.Executor.{
  Core, handle_execute, settle, conclude, run_on, run_validated, run_command, conclude_validated,
  verdict, accept_or_roll_back, unless_refused, checked_by,
}
use project_ariadne.Core.Executor.Handling.{Allowed, run_on-revision, focus-Allowed}
use project_ariadne.Core.Executor.Overflow.{Told, announce_event-Told}

-- Nothing was announced.
abbrev pub IsQuiet : Core → Core → Type 0
IsQuiet c c' =
    (c'.machine.state.revision ≡ c.machine.state.revision)
    × (c'.queues ≡ c.queues)
    × (c'.finished ≡ c.finished)
    × (c'.next_frontend_id ≡ c.next_frontend_id)
    × (c'.config ≡ c.config)

-- A successful run of the command on the state or on the validator's copy of it.
abbrev pub RanTo : Core → Command → Reply → Machine → Option Event → Type 0
RanTo c command reply m event =
    (s : State) × (s ≡ c.machine.state ⊎ clone_state c.machine.state ≡ some s)
    × (execute c.config.max_attention_entries command (record c.machine { state = s })
        ≡ (ok (reply, event), m))

-- What an event or none does to the core, whose command left the machine `m`.
abbrev pub After : Core → Machine → Option Event → Core → Type 0
After c m none c' = (c'.machine ≡ m) × IsQuiet c c'
After c m (some event) c' =
    (m.state.revision ≡ c.machine.state.revision)
    × (c.machine.state.revision ≢ max_uint64)
    × Told c m event c'

abbrev pub Answered : Core → Command → Result Reply × Core → Type 0
Answered c command (err e, c') = IsQuiet c c'
Answered c command (ok reply, c') =
    (m : Machine) × (event : Option Event) × RanTo c command reply m event × After c m event c'

settle-After :
    (c : Core) (reply : Reply) (m : Machine) (event : Option Event)
    → Allowed c (ok (reply, event), m)
    → m.state.revision ≡ c.machine.state.revision
    → After c m event (settle c m event)
settle-After c reply m none allowed h = (refl, (h, refl, refl, refl, refl))
settle-After c reply m (some event) allowed h =
    (h, allowed reply event refl, announce_event-Told c m event)

module _ (c : Core) (command : Command) (s : State)
    (from : s ≡ c.machine.state ⊎ clone_state c.machine.state ≡ some s) where
  conclude-Answered :
      (r : Result Outcome × Machine)
      → run_on c command s ≡ r
      → Allowed c r
      → r.1.state.revision ≡ c.machine.state.revision
      → Answered c command (conclude c r)
  conclude-Answered (err x, m) e allowed h = (h, refl, refl, refl, refl)
  conclude-Answered (ok (reply, event), m) e allowed h =
      (m, event, (s, from, e), settle-After c reply m event allowed h)

  accepted-Answered :
      (reply : Reply) (m : Machine) (event : Option Event) (refused : Option CoreError)
      → run_on c command s ≡ (ok (reply, event), m)
      → After c m event (settle c m event)
      → Answered c command (accept_or_roll_back c reply m event refused)
  accepted-Answered reply m event none e h = (m, event, (s, from, e), h)
  accepted-Answered reply m event (some x) e h = (refl, refl, refl, refl, refl)

  validated-Answered :
      (validator : Snapshot → Option CoreError) (r : Result Outcome × Machine)
      → run_on c command s ≡ r
      → Allowed c r
      → r.1.state.revision ≡ c.machine.state.revision
      → Answered c command (conclude_validated validator c r)
  validated-Answered validator (err x, m) e allowed h = (refl, refl, refl, refl, refl)
  validated-Answered validator (ok (reply, event), m) e allowed h =
      accepted-Answered reply m event (verdict validator m.state event) e
        (settle-After c reply m event allowed h)

run_validated-Answered :
    (validator : Snapshot → Option CoreError) (c : Core) (command : Command) (copy : Option State)
    → clone_state c.machine.state ≡ copy
    → c.machine.state.revision ≢ max_uint64
    → Answered c command (run_validated validator c command copy)
run_validated-Answered validator c command none e h = (refl, refl, refl, refl, refl)
run_validated-Answered validator c command (some copy) e h =
    validated-Answered c command copy (inr e) validator (run_on c command copy) refl
      (λ reply event _. h)
      (run_on-revision c command copy
        (ap (λ (x : ℕ × ℕ × ℕ × ℕ × ℕ). x.0) (clone_state-counters c.machine.state copy e)))

run_unvalidated-Answered :
    (c : Core) (command : Command)
    → Allowed c (run_on c command c.machine.state)
    → Answered c command (conclude c (run_on c command c.machine.state))
run_unvalidated-Answered c command allowed =
    conclude-Answered c command c.machine.state (inl refl) (run_on c command c.machine.state) refl
      allowed (run_on-revision c command c.machine.state refl)

run_command-Answered :
    (c : Core) (command : Command) (persistent : Bool)
    (validator : Option (Snapshot → Option CoreError))
    → changes_persistent_state command ≡ persistent
    → (persistent ≡ true → c.machine.state.revision ≢ max_uint64)
    → Answered c command (run_command c command persistent validator)
run_command-Answered c command true (some validator) e h =
    run_validated-Answered validator c command (clone_state c.machine.state) refl (h refl)
run_command-Answered c command true none e h =
    run_unvalidated-Answered c command (λ reply event _. h refl)
run_command-Answered c command false validator e h =
    run_unvalidated-Answered c command (focus-Allowed c command e)

unless_refused-Answered :
    (c : Core) (command : Command) (refused : Option CoreError) (overflow : Bool)
    → (changes_persistent_state command && c.machine.state.revision == max_uint64) ≡ overflow
    → Answered c command (unless_refused refused c command)
unless_refused-Answered c command (some e) overflow h = (refl, refl, refl, refl, refl)
unless_refused-Answered c command none true h = rw h (refl, refl, refl, refl, refl)
unless_refused-Answered c command none false h = rw h (
    run_command-Answered c command (changes_persistent_state command) c.config.snapshot_validator
      refl (λ p. ground (arith, h, p)))

-- A command that is answered with an error announces nothing. One that is answered with a reply ran
-- with that reply on the state or on a copy of it; if the run gave no event, the core has the machine
-- that the run left and nothing is announced. If it gave one, the revision was not the greatest uint64
-- and goes up by one, every queue with room ends in the event at the new revision, and exactly the
-- frontends whose queue was full are dropped and finished with ErrEventQueueOverflow.
pub handle_execute-Answered :
    (c : Core) (command : Command) (check : Option (Snapshot → Option CoreError))
    → Answered c command (handle_execute command check c)
unfolding handle_execute
handle_execute-Answered c command check =
    unless_refused-Answered c command (checked_by check c.machine.state)
      (changes_persistent_state command && c.machine.state.revision == max_uint64) refl
