-- ===== src/Core/Terminals/Steps.antt =====
-- operations.go, the terminal commands: each makes one move or none, and keeps the panes valid.
use project_ariadne.Base.{
  Bool-cases, inl, inr, if◌then◌else◌, ℕ, String, ◌≡◌, refl, subst, Bool, true, false, not, Option,
  none, some, [], ◌∷◌, ◌==◌, nat_eq, string_eq, Dict, get, values, All, All-get, is_some, arith, ap,
  ◌∙◌,
}
use project_ariadne.Model.Errors.{CoreError, Result, ok, err}
use project_ariadne.Core.Events.{Event, Reply, terminal_result}
use project_ariadne.Model.Terminal.{
  TerminalState, TerminalInstance, TerminalExit, LaunchSpec, starting, running, stopping, failed,
  valid_terminal,
}
use project_ariadne.Model.Pane.{Pane, pane_terminal, terminal_id_of}
use project_ariadne.State.Defs.{State}
use project_ariadne.Core.Machine.{Machine, Exec, Outcome, refuse_if, or_fail, ◌>>=◌, ◌>>◌}
use project_ariadne.Core.Terminals.{
  activate_terminal, fail_terminal_start, prepare_terminal_restart, prepare_terminal_run,
  begin_terminal_stop, record_terminal_exit, forget_terminal_session, put_terminal, find_terminal,
  pane_by_terminal_id, terminal_if, has_ended, start_failure, may_run, record_changed,
  starting_terminal, has_id,
}
use project_ariadne.Core.Terminals.Life.{
  is_idle-IsIdle, has_ended-HasEnded, may_run-MayRun, TerminalAction, activate, fail, restart,
  run_with, stop, end_with, forget, Move, activates, fails, restarts, runs, stops, ends, forgets,
}

-- Whatever holds of every pane holds of this one.
abbrev pub IsPaneOf : State → Pane → Type 1
IsPaneOf s pane = (P : Pane → Type 0) → All P (values s.panes) → P pane

-- The pane that a command names, by its own ID or by that of its terminal.
pub data Target : Type 0 where
  at_pane at_terminal : ℕ → Target

-- The pane that a command finds in a state, and the key that it stores it under.
abbrev pub Finds : Target → State → ℕ → Pane → Type 1
Finds (at_pane id) s key pane = (get id s.panes ≡ some pane) × (key ≡ pane.id) × Unit {1}
Finds (at_terminal id) s key pane =
    (terminal_id_of pane.terminal ≡ some id)
    × ((P : ℕ × Pane → Type 0) → All P s.panes → P (key, pane))

-- An error or a reply without an event leaves the state alone; an event goes with one moved terminal
-- that is put into one pane.
pub data Effect (target : Target) (action : TerminalAction) (s : State)
    : Result Outcome → State → Type 1 where
  refuses : (e : CoreError) → Effect target action s (err e) s
  keeps : (reply : Reply) → Effect target action s (ok (reply, none)) s
  moved :
      {reply : Reply} {event : Event} (key : ℕ) (pane : Pane) (t : TerminalInstance)
      → IsPaneOf s pane
      → Finds target s key pane
      → Move pane action t
      → Effect target action s (ok (reply, some event)) (put_terminal s key pane t)

abbrev pub EffectAt : Target → TerminalAction → Machine → Exec Outcome → Type 1
EffectAt target action m step = Effect target action m.state (step m).0 (step m).1.state

module _ {target : Target} {action : TerminalAction} where
  at_refuse :
      (m : Machine) (b : Bool) (e : CoreError) (next : Exec Outcome)
      → (b ≡ false → EffectAt target action m next)
      → EffectAt target action m (refuse_if b e >> next)
  at_refuse m true e next k = refuses e
  at_refuse m false e next k = k refl

  at_found :
      {A : Type 0} (m : Machine) (r : Option A) (e : CoreError) (next : A → Exec Outcome)
      → ((a : A) → r ≡ some a → EffectAt target action m (next a))
      → EffectAt target action m (or_fail r e >>= next)
  at_found m none e next k = refuses e
  at_found m (some a) e next k = k a refl

terminal_if-some :
    (test : TerminalInstance → Bool) (terminal : Option TerminalInstance) (t : TerminalInstance)
    → terminal_if test terminal ≡ some t
    → (terminal ≡ some t) × (test t ≡ true)
terminal_if-some test none t e = ground arith
terminal_if-some test (some u) t e = passing (test u) refl e
  where
    passing :
        (b : Bool)
        → test u ≡ b
        → (if b then some u else none) ≡ some t
        → (some u ≡ some t) × (test t ≡ true)
    passing true h e' = (e', ap test (ground (arith, e')) ∙ h)
    passing false h e' = ground (arith, e')

get-IsPaneOf : (s : State) (id : ℕ) (pane : Pane) → get id s.panes ≡ some pane → IsPaneOf s pane
get-IsPaneOf s id pane e P h = All-get P id pane s.panes h e

find-All :
    (id : ℕ) (panes : Dict ℕ Pane) (key : ℕ) (pane : Pane)
    → find_terminal id panes ≡ some (key, pane)
    → (P : Pane → Type 0) → All P (values panes)
    → P pane
unfolding find_terminal values
find-All id [] key pane e P h = ground arith
find-All id ((k, p) ∷ rest) key pane e P (q, h) =
    (elim (has_id id (terminal_id_of p.terminal))
        as (λ b. (if b then some (k, p) else find_terminal id rest) ≡ some (key, pane) → P pane) [
          | true ↦ λ e'. subst P (ground (arith, e')) q
          | false ↦ λ e'. find-All id rest key pane e' P h
        ])
      e

pane_by_terminal_id-IsPaneOf :
    (id : ℕ) (s : State) (key : ℕ) (pane : Pane)
    → pane_by_terminal_id id s ≡ some (key, pane)
    → IsPaneOf s pane
unfolding pane_by_terminal_id
pane_by_terminal_id-IsPaneOf id s key pane e P h =
    find-All id s.panes key pane (ground (arith, e)) P h

has_id-some : (id : ℕ) (other : Option ℕ) → has_id id other ≡ true → other ≡ some id
has_id-some id none h = ground (arith, h)
has_id-some id (some x) h = ap some ((nat_eq.beq_iff x id).0 h)

find-entry :
    (id : ℕ) (panes : Dict ℕ Pane) (key : ℕ) (pane : Pane)
    → find_terminal id panes ≡ some (key, pane)
    → (terminal_id_of pane.terminal ≡ some id)
      × ((P : ℕ × Pane → Type 0) → All P panes → P (key, pane))
unfolding find_terminal
find-entry id [] key pane e = ground (arith, e)
find-entry id ((k, p) ∷ rest) key pane e =
    elim (Bool-cases (has_id id (terminal_id_of p.terminal))) [
      | inl here ↦
          let same : (k, p) ≡ (key, pane) = ground (arith, e, here) in
          (
            subst (λ (q : ℕ × Pane). terminal_id_of q.1.terminal ≡ some id) same
                (has_id-some id (terminal_id_of p.terminal) here),
            λ P h. subst P same h.0,
          )
      | inr later ↦
          let found = find-entry id rest key pane (ground (arith, e, later)) in
          (found.0, λ P h. found.1 P h.1)
    ]

pane_by_terminal_id-Finds :
    (id : ℕ) (s : State) (key : ℕ) (pane : Pane)
    → pane_by_terminal_id id s ≡ some (key, pane)
    → Finds (at_terminal id) s key pane
unfolding pane_by_terminal_id
pane_by_terminal_id-Finds id s key pane e = find-entry id s.panes key pane (ground (arith, e))

pub begin_terminal_stop-Effect :
    (pane_id : ℕ) (m : Machine) → EffectAt (at_pane pane_id) stop m (begin_terminal_stop pane_id)
unfolding begin_terminal_stop
begin_terminal_stop-Effect pane_id m = at_found m (get pane_id m.state.panes) _ _ (λ pane e.
    at_found m (terminal_if _ pane.terminal) _ _ (λ t h.
      let (shown, test) = terminal_if-some _ pane.terminal t h in
      moved pane.id pane (record t { state = stopping }) (get-IsPaneOf m.state pane_id pane e)
        (e, refl, tt) (stops t shown (ground (arith, test)))))

pub activate_terminal-Effect :
    (pane_id terminal_id : ℕ) (m : Machine)
    → EffectAt (at_pane pane_id) (activate terminal_id) m (activate_terminal pane_id terminal_id)
unfolding activate_terminal
activate_terminal-Effect pane_id id m = at_refuse m (id == 0) _ _ (λ nonzero.
    at_refuse m (is_some (pane_by_terminal_id id m.state)) _ _ (λ _.
      at_found m (get pane_id m.state.panes) _ _ (λ pane e.
        at_found m (terminal_if _ pane.terminal) _ _ (λ t h.
          let (shown, test) = terminal_if-some _ pane.terminal t h in
          moved pane.id pane (record t { id = some id; state = running })
            (get-IsPaneOf m.state pane_id pane e) (e, refl, tt)
            (activates t id shown (ground (arith, test)) nonzero)))))

pub fail_terminal_start-Effect :
    (pane_id : ℕ) (message : String) (m : Machine)
    → EffectAt (at_pane pane_id) (fail message) m (fail_terminal_start pane_id message)
unfolding fail_terminal_start
fail_terminal_start-Effect pane_id message m = at_found m (get pane_id m.state.panes) _ _ (λ pane e.
    at_found m (terminal_if _ pane.terminal) _ _ (λ t h.
      let (shown, test) = terminal_if-some _ pane.terminal t h in
      moved pane.id pane (record t { state = failed; exit = some (start_failure message) })
        (get-IsPaneOf m.state pane_id pane e) (e, refl, tt)
        (fails t message shown (ground (arith, test)) (ground (arith, test)))))

pub prepare_terminal_restart-Effect :
    (pane_id : ℕ) (m : Machine)
    → EffectAt (at_pane pane_id) restart m (prepare_terminal_restart pane_id)
unfolding prepare_terminal_restart
prepare_terminal_restart-Effect pane_id m = at_found m (get pane_id m.state.panes) _ _ (λ pane e.
    at_found m (terminal_if _ pane.terminal) _ _ (λ t h.
      let (shown, test) = terminal_if-some _ pane.terminal t h in
      moved pane.id pane
        (record t { id = none; state = starting; exit = none; history_available = false })
        (get-IsPaneOf m.state pane_id pane e) (e, refl, tt)
        (restarts t shown (is_idle-IsIdle t.state test))))

pub prepare_terminal_run-Effect :
    (pane_id : ℕ) (launch : LaunchSpec) (m : Machine)
    → EffectAt (at_pane pane_id) (run_with launch) m (prepare_terminal_run pane_id launch)
unfolding prepare_terminal_run
prepare_terminal_run-Effect pane_id launch m = at_found m (get pane_id m.state.panes) _ _ (λ pane e.
    at_refuse m (not (pane.kind == pane_terminal)) _ _ (λ kind.
      at_refuse m (not (may_run pane.terminal)) _ _ (λ idle.
        at_refuse m (not (valid_terminal (starting_terminal launch))) _ _ (λ valid.
          moved pane.id pane (starting_terminal launch) (get-IsPaneOf m.state pane_id pane e)
            (e, refl, tt)
            (runs launch (ground (arith, kind))
              (may_run-MayRun pane.terminal (ground (arith, idle))) (ground (arith, valid)))))))

pub forget_terminal_session-Effect :
    (terminal_id : ℕ) (m : Machine)
    → EffectAt (at_terminal terminal_id) forget m (forget_terminal_session terminal_id)
unfolding forget_terminal_session
forget_terminal_session-Effect id m = at_found m (pane_by_terminal_id id m.state) _ _ (λ found e.
    at_found m (terminal_if _ (found.1).terminal) _ _ (λ t h.
      let (shown, test) = terminal_if-some _ (found.1).terminal t h in
      moved found.0 found.1 (record t { id = none; history_available = false })
        (pane_by_terminal_id-IsPaneOf id m.state found.0 found.1 e)
        (pane_by_terminal_id-Finds id m.state found.0 found.1 e)
        (forgets t shown (has_ended-HasEnded t.state test))))

-- An exit is recorded unless it is the one on record.
record_changed-Effect :
    {target : Target} (m : Machine) (key : ℕ) (pane : Pane) (t : TerminalInstance)
    (state : TerminalState) (exit : TerminalExit) (history same : Bool)
    → IsPaneOf m.state pane
    → Finds target m.state key pane
    → pane.terminal ≡ some t
    → has_ended state ≡ true
    → EffectAt target
        (end_with state exit history)
        m
        (record_changed key pane t state exit history same)
record_changed-Effect m key pane t state exit history true p f e h = keeps (terminal_result pane)
record_changed-Effect m key pane t state exit history false p f e h =
    let ended = record t { state = state; exit = some exit; history_available = history } in
    at_refuse m (not (valid_terminal ended)) _ _ (λ valid.
      moved key pane ended p f
        (ends t state exit history e (has_ended-HasEnded state h) (ground (arith, valid))))

pub record_terminal_exit-Effect :
    (terminal_id : ℕ) (state : TerminalState) (exit : TerminalExit) (history : Bool) (m : Machine)
    → EffectAt
        (at_terminal terminal_id)
        (end_with state exit history)
        m
        (record_terminal_exit terminal_id state exit history)
unfolding record_terminal_exit
record_terminal_exit-Effect id state exit history m =
    at_found m (pane_by_terminal_id id m.state) _ _ (λ found e.
      at_refuse m (not (has_ended state)) _ _ (λ h. at_found m (found.1).terminal _ _ (λ t shown.
        record_changed-Effect m found.0 found.1 t state exit history _
          (pane_by_terminal_id-IsPaneOf id m.state found.0 found.1 e)
          (pane_by_terminal_id-Finds id m.state found.0 found.1 e) shown (ground (arith, h)))))
