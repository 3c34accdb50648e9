-- ===== src/Model/Terminal.antt =====
-- model.go: `TerminalInstance` and its validity. A nil pointer is `none`. Exit codes are Go's `int`:
-- `minus n` is -(n + 1).
use project_ariadne.Base.{
  ℕ, String, Bool, true, false, not, ◌&&◌, Option, none, some, List, [], ◌∷◌, ◌==◌, any, has_nul,
  is_some, nat_eq, string_eq,
}

pub data TerminalState : Type 0 where
  starting running stopping exited failed placeholder : TerminalState
  unknown_state : String → TerminalState

pub data TerminalExitKind : Type 0 where
  process signal pty_error killed : TerminalExitKind
  unknown_exit : String → TerminalExitKind

pub data ExitCode : Type 0 where
  plus minus : ℕ → ExitCode

pub record LaunchSpec : Type 0 where
  pub argv : List String
  pub cwd : String

pub record TerminalExit : Type 0 where
  pub kind : TerminalExitKind
  pub exit_code : ExitCode
  pub exit_signal : String
  pub message : String

pub record TerminalInstance : Type 0 where
  pub id : Option ℕ
  pub state : TerminalState
  pub launch : LaunchSpec
  pub exit : Option TerminalExit
  pub history_available : Bool

abbrev pub is_zero_code : ExitCode → Bool
is_zero_code (plus n) = n == 0
is_zero_code (minus n) = false

abbrev pub is_nonnegative : ExitCode → Bool
is_nonnegative (plus n) = true
is_nonnegative (minus n) = false

abbrev valid_exit_of : TerminalExitKind → TerminalExit → Bool
valid_exit_of killed exit =
    is_zero_code exit.exit_code && exit.exit_signal == "" && not (has_nul exit.message)
valid_exit_of process exit =
    is_nonnegative exit.exit_code && exit.exit_signal == "" && exit.message == ""
valid_exit_of signal exit =
    is_zero_code exit.exit_code && not (exit.exit_signal == "") && exit.message == ""
valid_exit_of pty_error exit =
    is_zero_code exit.exit_code && exit.exit_signal == "" && not (exit.message == "")
valid_exit_of (unknown_exit s) exit = false

unfoldable pub valid_terminal_exit : TerminalExit → Bool
valid_terminal_exit exit = valid_exit_of exit.kind exit

abbrev pub is_pty_error : TerminalExitKind → Bool
is_pty_error pty_error = true
is_pty_error _ = false

-- `len(Argv) == 0 || Argv[0] == ""`.
abbrev pub no_program : List String → Bool
no_program [] = true
no_program (program ∷ rest) = program == ""

unfoldable pub valid_launch : LaunchSpec → Bool
unfolding any
valid_launch launch =
    not (no_program launch.argv)
    && not (launch.cwd == "")
    && not (has_nul launch.cwd)
    && not (any has_nul launch.argv)

abbrev pub is_zero_id : Option ℕ → Bool
is_zero_id none = false
is_zero_id (some id) = id == 0

abbrev pub exit_of_kind : Bool → Option TerminalExit → Bool
exit_of_kind from_pty none = false
exit_of_kind true (some exit) = valid_terminal_exit exit && is_pty_error exit.kind
exit_of_kind false (some exit) = valid_terminal_exit exit && not (is_pty_error exit.kind)

-- The `switch terminal.State` at the end of `validTerminal`.
abbrev pub valid_in_state : TerminalState → TerminalInstance → Bool
valid_in_state starting t = not (is_some t.id) && not (is_some t.exit) && not t.history_available
valid_in_state running t = is_some t.id && not (is_some t.exit)
valid_in_state stopping t = is_some t.id && not (is_some t.exit)
valid_in_state placeholder t = not (is_some t.id) && not (is_some t.exit) && not t.history_available
valid_in_state exited t = exit_of_kind false t.exit
valid_in_state failed t = exit_of_kind true t.exit
valid_in_state (unknown_state s) t = false

unfoldable pub valid_terminal : TerminalInstance → Bool
valid_terminal t =
    valid_launch t.launch
    && not (is_zero_id t.id)
    && not (t.history_available && not (is_some t.id))
    && valid_in_state t.state t
