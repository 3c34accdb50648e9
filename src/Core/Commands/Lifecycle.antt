-- ===== src/Core/Commands/Lifecycle.antt =====
-- operations.go, `execute` at the commands on terminals.
use project_ariadne.Base.{
  ℕ, ◌≡◌, Bool, true, All, All-put, values, nat_eq, arith, some, none, Option, is_some, refl, Dict,
  get, get-put, ap, ap₂, sym, ◌∙◌, subst, Bool-cases, inl, inr, [], ◌∷◌, if◌then◌else◌, ◌==◌,
}
use project_ariadne.Model.Pane.{Pane, valid_pane, terminal_id_of}
use project_ariadne.State.Defs.{State}
use project_ariadne.Core.Machine.{Machine, Exec, Outcome}
use project_ariadne.Model.Errors.{Result, ok, err}
use project_ariadne.Model.Terminal.{TerminalInstance}
use project_ariadne.Core.Terminals.{put_terminal}
use project_ariadne.Core.Terminals.Life.{
  Move, Move-valid, TerminalAction, activate, fail, restart, run_with, stop, end_with, forget,
}
use project_ariadne.Core.Terminals.Steps.{
  Effect, EffectAt, refuses, keeps, moved, Target, at_pane, at_terminal, Finds,
  activate_terminal-Effect, fail_terminal_start-Effect, prepare_terminal_restart-Effect,
  prepare_terminal_run-Effect, begin_terminal_stop-Effect, record_terminal_exit-Effect,
  forget_terminal_session-Effect,
}
use project_ariadne.Core.Commands.{
  Command, execute, record_terminal_exit_command, forget_terminal_session_command,
  activate_terminal_command, fail_terminal_start_command, prepare_terminal_restart_command,
  prepare_terminal_run_command, begin_terminal_stop_command,
}

-- The pane and the action of a command on terminals.
abbrev pub action_of : Command → Option (Target × TerminalAction)
action_of (record_terminal_exit_command id state exit history) =
    some (at_terminal id, end_with state exit history)
action_of (forget_terminal_session_command id) = some (at_terminal id, forget)
action_of (activate_terminal_command pane id) = some (at_pane pane, activate id)
action_of (fail_terminal_start_command pane message) = some (at_pane pane, fail message)
action_of (prepare_terminal_restart_command pane) = some (at_pane pane, restart)
action_of (prepare_terminal_run_command pane launch) = some (at_pane pane, run_with launch)
action_of (begin_terminal_stop_command pane) = some (at_pane pane, stop)
action_of _ = none

abbrev pub is_terminal_command : Command → Bool
is_terminal_command command = is_some (action_of command)

-- An effect, at a command that has an action.
abbrev EffectOf : Option (Target × TerminalAction) → Machine → Exec Outcome → Type 1
EffectOf none m step = Unit
EffectOf (some (target, action)) m step = EffectAt target action m step

execute-EffectOf :
    (limit : ℕ) (command : Command) (m : Machine)
    → EffectOf (action_of command) m (execute limit command)
unfolding execute
execute-EffectOf limit (record_terminal_exit_command id s x h) m =
    record_terminal_exit-Effect id s x h m
execute-EffectOf limit (forget_terminal_session_command id) m = forget_terminal_session-Effect id m
execute-EffectOf limit (activate_terminal_command p id) m = activate_terminal-Effect p id m
execute-EffectOf limit (fail_terminal_start_command p e) m = fail_terminal_start-Effect p e m
execute-EffectOf limit (prepare_terminal_restart_command p) m = prepare_terminal_restart-Effect p m
execute-EffectOf limit (prepare_terminal_run_command p l) m = prepare_terminal_run-Effect p l m
execute-EffectOf limit (begin_terminal_stop_command p) m = begin_terminal_stop-Effect p m
execute-EffectOf limit _ m = tt

-- Every pane is stored under its own ID, which no other entry has.
abbrev pub AreKeyed : State → Type 0
AreKeyed s = All (λ (e : ℕ × Pane). (e.1.id ≡ e.0) × (get e.0 s.panes ≡ some e.1)) s.panes

abbrev pub IsTarget : Target → Pane → Type 0
IsTarget (at_pane id) pane = pane.id ≡ id
IsTarget (at_terminal id) pane = terminal_id_of pane.terminal ≡ some id

-- What an answer says of the states before and after it.
abbrev pub Moved : Target → TerminalAction → State → Result Outcome → State → Type 0
Moved target action s (err e) s' = s' ≡ s
Moved target action s (ok (reply, none)) s' = s' ≡ s
Moved target action s (ok (reply, some event)) s' =
    (pane : Pane) × (t : TerminalInstance) × (get pane.id s.panes ≡ some pane)
    × IsTarget target pane
    × Move pane action t
    × (s' ≡ record s { panes = s'.panes })
    × ((id : ℕ)
        → get id s'.panes
          ≡ (if pane.id == id then some (record pane { terminal = some t }) else get id s.panes))

get-entry :
    (P : ℕ × Pane → Type 0) (id : ℕ) (panes : Dict ℕ Pane) (pane : Pane)
    → All P panes
    → get id panes ≡ some pane
    → P (id, pane)
unfolding get
get-entry P id [] pane h e = ground (arith, e)
get-entry P id ((k, p) ∷ panes) pane h e = elim (Bool-cases (k == id)) [
  | inl same ↦
      subst P
        (ap₂ (λ (j : ℕ) (q : Pane). (j, q)) ((nat_eq.beq_iff k id).0 same)
          (ground (arith, e, same)))
        h.0
  | inr other ↦ get-entry P id panes pane h.1 (ground (arith, e, other))
]

-- The pane that is found is the one stored under its ID, and is stored there again.
Finds-keyed :
    (target : Target) (s : State) (key : ℕ) (pane : Pane)
    → AreKeyed s
    → Finds target s key pane
    → (key ≡ pane.id) × (get pane.id s.panes ≡ some pane) × IsTarget target pane
Finds-keyed (at_pane id) s key pane keyed (found, same, unit) =
    let (own, here) = get-entry _ id s.panes pane keyed found in
    (same, ap (λ (j : ℕ). get j s.panes) own ∙ found, own)
Finds-keyed (at_terminal id) s key pane keyed (shows, holds) =
    let (own, here) =
      holds (λ (e : ℕ × Pane). (e.1.id ≡ e.0) × (get e.0 s.panes ≡ some e.1)) keyed in
    (sym own, ap (λ (j : ℕ). get j s.panes) own ∙ here, shows)

Effect-Moved :
    (target : Target) (action : TerminalAction) (s s' : State) (r : Result Outcome)
    → AreKeyed s
    → Effect target action s r s'
    → Moved target action s r s'
unfolding put_terminal
Effect-Moved target action s s' r keyed (refuses e) = refl
Effect-Moved target action s s' r keyed (keeps reply) = refl
Effect-Moved target action s s' r keyed (moved key pane t p found move) =
    let (own, here, is) = Finds-keyed target s key pane keyed found in
    (
      pane,
      t,
      here,
      is,
      move,
      refl,
      λ id.
          get-put key id (record pane { terminal = some t }) s.panes
          ∙ ap
              (λ (k : ℕ).
                if k == id then some (record pane { terminal = some t }) else get id s.panes)
              own,
    )

-- In a state whose panes are stored under their own IDs: a command on terminals that is answered with
-- an error, or without an event, leaves the state alone. With an event, exactly the pane that the
-- command names has another terminal afterwards, which the move of that command leads to: a starting
-- terminal runs under the given ID or fails with the given message, an idle one or none starts, a
-- running one stops, any one ends with the given exit, and one that has ended forgets its session.
pub terminal_commands_move :
    (limit : ℕ) (command : Command) (target : Target) (action : TerminalAction) (m : Machine)
    → action_of command ≡ some (target, action)
    → AreKeyed m.state
    → Moved target action m.state (execute limit command m).0 (execute limit command m).1.state
terminal_commands_move limit command target action m e keyed =
    Effect-Moved target action m.state (execute limit command m).1.state (execute limit command m).0
      keyed (subst (λ o. EffectOf o m (execute limit command)) e (execute-EffectOf limit command m))

abbrev pub PanesAreValid : State → Type 0
PanesAreValid s = All (λ (p : Pane). valid_pane p ≡ true) (values s.panes)

Effect-valid :
    (target : Target) (action : TerminalAction) (s s' : State) (r : Result Outcome)
    → Effect target action s r s'
    → PanesAreValid s
    → PanesAreValid s'
unfolding put_terminal
Effect-valid target action s s' r (refuses e) v = v
Effect-valid target action s s' r (keeps reply) v = v
Effect-valid target action s s' r (moved key pane t p found move) v =
    All-put _ key (record pane { terminal = some t }) s.panes v
      (Move-valid pane action t (p (λ (q : Pane). valid_pane q ≡ true) v) move)

EffectOf-valid :
    (o : Option (Target × TerminalAction)) (m : Machine) (step : Exec Outcome)
    → is_some o ≡ true
    → EffectOf o m step
    → PanesAreValid m.state
    → PanesAreValid (step m).1.state
EffectOf-valid none m step h e v = ground (arith, h)
EffectOf-valid (some (target, action)) m step h e v =
    Effect-valid target action m.state (step m).1.state (step m).0 e v

-- If every pane passes `validPane` before a command on terminals, every pane passes it afterwards,
-- whether the command succeeds or not.
pub terminal_commands_keep_panes_valid :
    (limit : ℕ) (command : Command) (m : Machine)
    → is_terminal_command command ≡ true
    → PanesAreValid m.state
    → PanesAreValid (execute limit command m).1.state
terminal_commands_keep_panes_valid limit command m t v =
    EffectOf-valid (action_of command) m (execute limit command) t
      (execute-EffectOf limit command m) v
