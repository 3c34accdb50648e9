-- ===== src/Core/Commands.antt =====
-- command.go: the commands; operations.go, `execute`. A command is copied before it crosses to the
-- executor, and a value is its own copy here.
pub mod Frame
pub mod Lifecycle
use project_ariadne.Base.{ℕ, String, Bool, true, false, List}
use project_ariadne.Layout.Tree.{SplitDirection}
use project_ariadne.Model.Terminal.{LaunchSpec, TerminalState, TerminalExit}
use project_ariadne.Model.Tool.{ToolDescriptor}
use project_ariadne.Model.Pane.{PaneSpec}
use project_ariadne.Model.Label.{Label}
use project_ariadne.Core.Machine.{Exec, Outcome}
use project_ariadne.Core.Labels.{set_label, remove_label, remove_labels_by_source}
use project_ariadne.Core.Attentions.{
  RaiseAttention, raise_attention, acknowledge_attention, remove_attentions_by_source,
}
use project_ariadne.Core.Tools.{update_tool_state}
use project_ariadne.Core.Terminals.{
  activate_terminal, fail_terminal_start, prepare_terminal_restart, prepare_terminal_run,
  begin_terminal_stop, record_terminal_exit, forget_terminal_session,
}
use project_ariadne.Core.Workspaces.{create_workspace, rename_workspace, delete_workspace}
use project_ariadne.Core.Windows.{
  create_window, rename_window, delete_window, set_focus, select_window,
}
use project_ariadne.Core.Panes.{create_pane, split_pane, create_transient_pane, resize_split}
use project_ariadne.Core.Closing.{close_pane}
use project_ariadne.Core.Moves.{move_pane}
use project_ariadne.Core.Stash.{stash_pane, restore_pane}
use project_ariadne.Core.Destinations.{RestorePane}
use project_ariadne.Core.WindowStash.{RestoreWindow, stash_window, restore_window}

pub data Command : Type 0 where
  create_transient_pane_command : ℕ → LaunchSpec → Command
  create_workspace_command : String → Command
  create_window_command : ℕ → String → Command
  rename_workspace_command : ℕ → String → Command
  delete_workspace_command : ℕ → Command
  rename_window_command : ℕ → String → Command
  delete_window_command : ℕ → Command
  create_pane_command : ℕ → PaneSpec → Command
  split_pane_command : ℕ → SplitDirection → PaneSpec → Command
  move_pane_command : ℕ → ℕ → ℕ → SplitDirection → Command
  close_pane_command : ℕ → Command
  resize_split_command : ℕ → List ℕ → Command
  stash_pane_command : ℕ → Command
  restore_pane_command : RestorePane → Command
  stash_window_command : ℕ → Command
  restore_window_command : RestoreWindow → Command
  set_focus_command : ℕ → ℕ → Command
  select_window_command : ℕ → ℕ → Command
  record_terminal_exit_command : ℕ → TerminalState → TerminalExit → Bool → Command
  forget_terminal_session_command : ℕ → Command
  activate_terminal_command : ℕ → ℕ → Command
  fail_terminal_start_command : ℕ → String → Command
  prepare_terminal_restart_command : ℕ → Command
  prepare_terminal_run_command : ℕ → LaunchSpec → Command
  begin_terminal_stop_command : ℕ → Command
  set_label_command : Label → Command
  remove_label_command : String → ℕ → String → String → Command
  remove_labels_by_source_command : String → Command
  update_tool_state_command : ToolDescriptor → ℕ → ℕ → String → Command
  raise_attention_command : RaiseAttention → Command
  acknowledge_attention_command : ℕ → ℕ → Command
  remove_attentions_by_source_command : String → Command

-- The first argument is Config.MaxAttentionEntries.
unfoldable pub execute : ℕ → Command → Exec Outcome
execute limit (create_transient_pane_command window launch) = create_transient_pane window launch
execute limit (create_workspace_command name) = create_workspace name
execute limit (create_window_command workspace name) = create_window workspace name
execute limit (rename_workspace_command workspace name) = rename_workspace workspace name
execute limit (delete_workspace_command workspace) = delete_workspace workspace
execute limit (rename_window_command window name) = rename_window window name
execute limit (delete_window_command window) = delete_window window
execute limit (create_pane_command window spec) = create_pane window spec
execute limit (split_pane_command target direction spec) = split_pane target direction spec
execute limit (move_pane_command pane destination target direction) =
    move_pane pane destination target direction
execute limit (close_pane_command pane) = close_pane pane
execute limit (resize_split_command split weights) = resize_split split weights
execute limit (stash_pane_command pane) = stash_pane pane
execute limit (restore_pane_command c) = restore_pane c
execute limit (stash_window_command window) = stash_window window
execute limit (restore_window_command c) = restore_window c
execute limit (set_focus_command frontend pane) = set_focus frontend pane
execute limit (select_window_command frontend window) = select_window frontend window
execute limit (record_terminal_exit_command terminal state exit history) =
    record_terminal_exit terminal state exit history
execute limit (forget_terminal_session_command terminal) = forget_terminal_session terminal
execute limit (activate_terminal_command pane terminal) = activate_terminal pane terminal
execute limit (fail_terminal_start_command pane message) = fail_terminal_start pane message
execute limit (prepare_terminal_restart_command pane) = prepare_terminal_restart pane
execute limit (prepare_terminal_run_command pane launch) = prepare_terminal_run pane launch
execute limit (begin_terminal_stop_command pane) = begin_terminal_stop pane
execute limit (set_label_command label) = set_label label
execute limit (remove_label_command kind id source name) = remove_label kind id source name
execute limit (remove_labels_by_source_command source) = remove_labels_by_source source
execute limit (update_tool_state_command descriptor generation version state) =
    update_tool_state descriptor generation version state
execute limit (raise_attention_command c) = raise_attention limit c
execute limit (acknowledge_attention_command id at) = acknowledge_attention id at
execute limit (remove_attentions_by_source_command source) = remove_attentions_by_source source

-- core.go, `changesPersistentState`: all but the two that move a frontend's focus.
unfoldable pub changes_persistent_state : Command → Bool
changes_persistent_state (set_focus_command frontend pane) = false
changes_persistent_state (select_window_command frontend window) = false
changes_persistent_state _ = true
