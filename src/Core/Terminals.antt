-- ===== src/Core/Terminals.antt =====
-- operations.go: the life of the terminal in a pane.
pub mod Life
pub mod Steps
use project_ariadne.Base.{
  ℕ, String, Bool, true, false, not, ◌&&◌, ◌||◌, Option, none, some, List, [], ◌∷◌, ◌==◌, nat_eq,
  string_eq, Dict, get, put, if◌then◌else◌, is_some, is_blank,
}
use project_ariadne.Model.Errors.{
  CoreError, invalid_argument, invalid_state, not_found, already_exists,
}
use project_ariadne.Model.Terminal.{
  TerminalState, TerminalInstance, TerminalExit, TerminalExitKind, ExitCode, LaunchSpec, starting,
  running, stopping, exited, failed, placeholder, pty_error, process, signal, killed, unknown_exit,
  plus, minus, valid_terminal,
}
use project_ariadne.Model.Pane.{Pane, pane_terminal, terminal_id_of}
use project_ariadne.State.Defs.{State}
use project_ariadne.State.Hierarchy.{beq_bool}
use project_ariadne.Core.Events.{
  EventKind, terminal_exited, terminal_unavailable, terminal_started, terminal_start_failed,
  terminal_restarting, terminal_run_prepared, terminal_stopping, terminal_event, terminal_result,
}
use project_ariadne.Core.Machine.{
  Exec, Outcome, ◌>>=◌, ◌>>◌, refuse_if, or_fail, current, store, announce, quietly,
}

abbrev pub has_id : ℕ → Option ℕ → Bool
has_id id none = false
has_id id (some other) = other == id

-- `(*state).paneByTerminalID`: no two panes share a terminal, so the order of the search is open.
unfoldable pub find_terminal : ℕ → Dict ℕ Pane → Option (ℕ × Pane)
find_terminal id [] = none
find_terminal id ((pane_id, pane) ∷ rest) =
    let more = find_terminal id rest in
    if has_id id (terminal_id_of pane.terminal) then some (pane_id, pane) else more

unfoldable pub pane_by_terminal_id : ℕ → State → Option (ℕ × Pane)
unfolding find_terminal
pane_by_terminal_id id s = if id == 0 then none else find_terminal id s.panes

-- The end of each command: the pane gets the terminal, and the change is announced.
unfoldable pub put_terminal : State → ℕ → Pane → TerminalInstance → State
put_terminal s pane_id pane terminal = record s {
  panes = put pane_id (record pane { terminal = some terminal }) s.panes;
}

abbrev pub commit_terminal : ℕ → Pane → TerminalInstance → EventKind → Exec Outcome
commit_terminal pane_id pane terminal kind = do
  s ← current
  let changed = record pane { terminal = some terminal }
  store (put_terminal s pane_id pane terminal)
  announce (terminal_result changed) kind (terminal_event changed)

abbrev pub is_starting : TerminalState → Bool
is_starting starting = true
is_starting _ = false

abbrev pub is_running : TerminalState → Bool
is_running running = true
is_running _ = false

-- Exited or failed.
abbrev pub has_ended : TerminalState → Bool
has_ended exited = true
has_ended failed = true
has_ended _ = false

-- The states that a restart leaves.
abbrev pub is_idle : TerminalState → Bool
is_idle placeholder = true
is_idle exited = true
is_idle failed = true
is_idle _ = false

-- The terminal, if it is in a state that a test admits.
abbrev pub terminal_if :
    (TerminalInstance → Bool) → Option TerminalInstance → Option TerminalInstance
terminal_if test none = none
terminal_if test (some t) = if test t then some t else none

unfoldable pub activate_terminal : ℕ → ℕ → Exec Outcome
activate_terminal pane_id terminal_id = do
  refuse_if (terminal_id == 0) invalid_argument
  s ← current
  refuse_if (is_some (pane_by_terminal_id terminal_id s)) already_exists
  pane ← or_fail (get pane_id s.panes) not_found
  t ← or_fail (terminal_if (λ t. is_starting t.state) pane.terminal) invalid_state
  commit_terminal pane.id pane (record t { id = some terminal_id; state = running })
      terminal_started

abbrev pub start_failure : String → TerminalExit
start_failure message = record {
  kind = pty_error;
  exit_code = plus 0;
  exit_signal = "";
  message = message;
}

unfoldable pub fail_terminal_start : ℕ → String → Exec Outcome
fail_terminal_start pane_id message = do
  s ← current
  pane ← or_fail (get pane_id s.panes) not_found
  t ←
      or_fail (terminal_if (λ t. is_starting t.state && not (is_blank message)) pane.terminal)
        invalid_state
  commit_terminal pane.id pane (record t { state = failed; exit = some (start_failure message) })
      terminal_start_failed

unfoldable pub prepare_terminal_restart : ℕ → Exec Outcome
prepare_terminal_restart pane_id = do
  s ← current
  pane ← or_fail (get pane_id s.panes) not_found
  t ← or_fail (terminal_if (λ t. is_idle t.state) pane.terminal) invalid_state
  commit_terminal pane.id pane
      (record t { id = none; state = starting; exit = none; history_available = false })
      terminal_restarting

abbrev pub may_run : Option TerminalInstance → Bool
may_run none = true
may_run (some t) = is_idle t.state

abbrev pub starting_terminal : LaunchSpec → TerminalInstance
starting_terminal launch = record {
  id = none;
  state = starting;
  launch = launch;
  exit = none;
  history_available = false;
}

unfoldable pub prepare_terminal_run : ℕ → LaunchSpec → Exec Outcome
prepare_terminal_run pane_id launch = do
  s ← current
  pane ← or_fail (get pane_id s.panes) not_found
  refuse_if (not (pane.kind == pane_terminal)) invalid_state
  refuse_if (not (may_run pane.terminal)) invalid_state
  refuse_if (not (valid_terminal (starting_terminal launch))) invalid_argument
  commit_terminal pane.id pane (starting_terminal launch) terminal_run_prepared

unfoldable pub begin_terminal_stop : ℕ → Exec Outcome
begin_terminal_stop pane_id = do
  s ← current
  pane ← or_fail (get pane_id s.panes) not_found
  t ← or_fail (terminal_if (λ t. is_running t.state && is_some t.id) pane.terminal) invalid_state
  commit_terminal pane.id pane (record t { state = stopping }) terminal_stopping

abbrev same_kind : TerminalExitKind → TerminalExitKind → Bool
same_kind process process = true
same_kind signal signal = true
same_kind pty_error pty_error = true
same_kind killed killed = true
same_kind (unknown_exit s) (unknown_exit t) = s == t
same_kind _ _ = false

abbrev same_code : ExitCode → ExitCode → Bool
same_code (plus m) (plus n) = m == n
same_code (minus m) (minus n) = m == n
same_code _ _ = false

abbrev pub same_exit : TerminalExit → Option TerminalExit → Bool
same_exit a none = false
same_exit a (some b) =
    same_kind b.kind a.kind
    && same_code b.exit_code a.exit_code
    && b.exit_signal == a.exit_signal
    && b.message == a.message

-- Both states are known to be exited or failed here.
abbrev same_ended : TerminalState → TerminalState → Bool
same_ended exited exited = true
same_ended failed failed = true
same_ended _ _ = false

abbrev pub record_changed :
    ℕ → Pane → TerminalInstance → TerminalState → TerminalExit → Bool → Bool → Exec Outcome
record_changed pane_id pane t state exit history_available true = quietly (terminal_result pane)
record_changed pane_id pane t state exit history_available false = do
  let ended = record t { state = state; exit = some exit; history_available = history_available }
  refuse_if (not (valid_terminal ended)) invalid_argument
  commit_terminal pane_id pane ended terminal_exited

unfoldable pub record_terminal_exit : ℕ → TerminalState → TerminalExit → Bool → Exec Outcome
record_terminal_exit terminal_id state exit history_available = do
  s ← current
  found ← or_fail (pane_by_terminal_id terminal_id s) not_found
  let (pane_id, pane) = found
  refuse_if (not (has_ended state)) invalid_argument
  t ← or_fail pane.terminal not_found
  record_changed pane_id pane t state exit history_available (
      same_exit exit t.exit
      && same_ended t.state state
      && beq_bool t.history_available history_available)

unfoldable pub forget_terminal_session : ℕ → Exec Outcome
forget_terminal_session terminal_id = do
  s ← current
  found ← or_fail (pane_by_terminal_id terminal_id s) not_found
  let (pane_id, pane) = found
  t ← or_fail (terminal_if (λ t. has_ended t.state) pane.terminal) invalid_state
  commit_terminal pane_id pane (record t { id = none; history_available = false })
      terminal_unavailable
