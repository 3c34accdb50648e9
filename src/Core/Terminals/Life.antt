-- ===== src/Core/Terminals/Life.antt =====
-- operations.go, the terminal commands: they keep every pane valid and only make certain moves.
use project_ariadne.Base.{
  ◌⊎◌, inl, inr, ap, Option, ℕ, String, ◌≡◌, refl, Bool, true, false, none, some, ◌==◌, nat_eq,
  string_eq, is_blank, arith,
}
use project_ariadne.Model.Terminal.{
  TerminalState, exited, placeholder, TerminalExit, pty_error, plus, TerminalInstance, LaunchSpec,
  starting, running, stopping, failed, valid_terminal, valid_terminal_exit,
}
use project_ariadne.Model.Pane.{Pane, valid_pane, pane_terminal, pane_tool}
use project_ariadne.Core.Terminals.{is_idle, has_ended, start_failure, starting_terminal, may_run}

-- A pane that shows another terminal.
abbrev pub valid_with : Pane → TerminalInstance → Bool
valid_with pane t = valid_pane (record pane { terminal = some t })

activated_valid :
    (pane : Pane) (t : TerminalInstance) (id : ℕ)
    → valid_pane pane ≡ true
    → pane.terminal ≡ some t
    → t.state ≡ starting
    → (id == 0) ≡ false
    → valid_with pane (record t { id = some id; state = running }) ≡ true
unfolding valid_pane valid_terminal
activated_valid pane t id v e s h = ground arith

blank_is_blank : (message : String) → message ≡ "" → is_blank message ≡ true
unfolding is_blank
blank_is_blank message e = rw e refl

not_blank : (message : String) → is_blank message ≡ false → (message == "") ≡ false
not_blank message h = ground (arith, string_eq.beq_iff message "", blank_is_blank message)

failed_valid :
    (pane : Pane) (t : TerminalInstance) (message : String)
    → valid_pane pane ≡ true
    → pane.terminal ≡ some t
    → t.state ≡ starting
    → is_blank message ≡ false
    → valid_with pane (record t { state = failed; exit = some (start_failure message) }) ≡ true
unfolding valid_pane valid_terminal valid_terminal_exit
failed_valid pane t message v e s h = ground (arith, not_blank message h)

restarted_valid :
    (pane : Pane) (t : TerminalInstance)
    → valid_pane pane ≡ true
    → pane.terminal ≡ some t
    → valid_with pane
        (record t { id = none; state = starting; exit = none; history_available = false })
      ≡ true
unfolding valid_pane valid_terminal
restarted_valid pane t v e = ground arith

stopped_valid :
    (pane : Pane) (t : TerminalInstance)
    → valid_pane pane ≡ true
    → pane.terminal ≡ some t
    → t.state ≡ running
    → valid_with pane (record t { state = stopping }) ≡ true
unfolding valid_pane valid_terminal
stopped_valid pane t v e s = ground arith

forgotten_valid :
    (pane : Pane) (t : TerminalInstance)
    → valid_pane pane ≡ true
    → pane.terminal ≡ some t
    → has_ended t.state ≡ true
    → valid_with pane (record t { id = none; history_available = false }) ≡ true
unfolding valid_pane valid_terminal
forgotten_valid pane t v e s = ground arith

replaced_valid :
    (pane : Pane) (t t' : TerminalInstance)
    → valid_pane pane ≡ true
    → pane.terminal ≡ some t
    → valid_terminal t' ≡ true
    → valid_with pane t' ≡ true
unfolding valid_pane
replaced_valid pane t t' v e h = ground arith

not_tool : (kind : String) → kind ≡ pane_terminal → (kind == pane_tool) ≡ false
not_tool kind e = rw e refl

run_valid :
    (pane : Pane) (launch : LaunchSpec)
    → valid_pane pane ≡ true
    → (pane.kind == pane_terminal) ≡ true
    → valid_terminal (starting_terminal launch) ≡ true
    → valid_with pane (starting_terminal launch) ≡ true
unfolding valid_pane
run_valid pane launch v e h =
    ground (arith, not_tool pane.kind ((string_eq.beq_iff pane.kind pane_terminal).0 e))

-- What a command asks of a terminal.
pub data TerminalAction : Type 0 where
  activate : ℕ → TerminalAction
  fail : String → TerminalAction
  restart : TerminalAction
  run_with : LaunchSpec → TerminalAction
  stop : TerminalAction
  end_with : TerminalState → TerminalExit → Bool → TerminalAction
  forget : TerminalAction

abbrev pub HasEnded : TerminalState → Type 0
HasEnded state = (state ≡ exited) ⊎ (state ≡ failed)

abbrev pub IsIdle : TerminalState → Type 0
IsIdle state = (state ≡ placeholder) ⊎ HasEnded state

-- No terminal, or an idle one.
abbrev pub MayRun : Option TerminalInstance → Type 0
MayRun none = Unit
MayRun (some t) = IsIdle t.state

pub has_ended-HasEnded : (state : TerminalState) → has_ended state ≡ true → HasEnded state
has_ended-HasEnded exited h = inl refl
has_ended-HasEnded failed h = inr refl
has_ended-HasEnded _ h = ground (arith, h)

HasEnded-has_ended : (state : TerminalState) → HasEnded state → has_ended state ≡ true
HasEnded-has_ended state (inl e) = ap has_ended e
HasEnded-has_ended state (inr e) = ap has_ended e

pub is_idle-IsIdle : (state : TerminalState) → is_idle state ≡ true → IsIdle state
is_idle-IsIdle placeholder h = inl refl
is_idle-IsIdle exited h = inr (inl refl)
is_idle-IsIdle failed h = inr (inr refl)
is_idle-IsIdle _ h = ground (arith, h)

pub may_run-MayRun : (t : Option TerminalInstance) → may_run t ≡ true → MayRun t
may_run-MayRun none h = tt
may_run-MayRun (some t) h = is_idle-IsIdle t.state h

-- The moves of the terminal of a pane: what an action needs, and the terminal that it leaves.
pub data Move (pane : Pane) : TerminalAction → TerminalInstance → Type 0 where
  activates :
      (t : TerminalInstance) (id : ℕ)
      → pane.terminal ≡ some t
      → t.state ≡ starting
      → (id == 0) ≡ false
      → Move pane (activate id) (record t { id = some id; state = running })
  fails :
      (t : TerminalInstance) (message : String)
      → pane.terminal ≡ some t
      → t.state ≡ starting
      → is_blank message ≡ false
      → Move pane (fail message) (record t {
        state = failed;
        exit =
            some (record {
              kind = pty_error;
              exit_code = plus 0;
              exit_signal = "";
              message = message;
            });
      })
  restarts :
      (t : TerminalInstance)
      → pane.terminal ≡ some t
      → IsIdle t.state
      → Move pane restart
          (record t { id = none; state = starting; exit = none; history_available = false })
  runs :
      (launch : LaunchSpec)
      → (pane.kind == pane_terminal) ≡ true
      → MayRun pane.terminal
      → valid_terminal (starting_terminal launch) ≡ true
      → Move pane (run_with launch) (record {
        id = none;
        state = starting;
        launch = launch;
        exit = none;
        history_available = false;
      })
  stops :
      (t : TerminalInstance)
      → pane.terminal ≡ some t
      → t.state ≡ running
      → Move pane stop (record t { state = stopping })
  ends :
      (t : TerminalInstance) (state : TerminalState) (exit : TerminalExit) (history : Bool)
      → pane.terminal ≡ some t
      → HasEnded state
      → valid_terminal (record t { state = state; exit = some exit; history_available = history })
        ≡ true
      → Move pane
          (end_with state exit history)
          (record t { state = state; exit = some exit; history_available = history })
  forgets :
      (t : TerminalInstance)
      → pane.terminal ≡ some t
      → HasEnded t.state
      → Move pane forget (record t { id = none; history_available = false })

pub Move-valid :
    (pane : Pane) (action : TerminalAction) (t : TerminalInstance)
    → valid_pane pane ≡ true
    → Move pane action t
    → valid_with pane t ≡ true
Move-valid pane _ t' v (activates t id e s h) = activated_valid pane t id v e s h
Move-valid pane _ t' v (fails t message e s h) = failed_valid pane t message v e s h
Move-valid pane _ t' v (restarts t e h) = restarted_valid pane t v e
Move-valid pane _ t' v (runs launch k h w) = run_valid pane launch v k w
Move-valid pane _ t' v (stops t e h) = stopped_valid pane t v e h
Move-valid pane _ t' v (ends t state exit history e h w) = replaced_valid pane t t' v e w
Move-valid pane _ t' v (forgets t e h) = forgotten_valid pane t v e (HasEnded-has_ended t.state h)
