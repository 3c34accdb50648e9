-- ===== src/Core/Commands/Frame/Execution.antt =====
-- operations.go, `execute`: what every command leaves alone.
use project_ariadne.Base.{ℕ, ◌≡◌, false, Option, none, arith}
use project_ariadne.Model.Errors.{ok}
use project_ariadne.Core.Events.{Event, Reply}
use project_ariadne.Core.Machine.{Machine}
use project_ariadne.Core.Commands.{
  Command, execute, changes_persistent_state, create_transient_pane_command,
  create_workspace_command, create_window_command, rename_workspace_command,
  delete_workspace_command, rename_window_command, delete_window_command, create_pane_command,
  split_pane_command, move_pane_command, close_pane_command, resize_split_command,
  stash_pane_command, restore_pane_command, stash_window_command, restore_window_command,
  set_focus_command, select_window_command, record_terminal_exit_command,
  forget_terminal_session_command, activate_terminal_command, fail_terminal_start_command,
  prepare_terminal_restart_command, prepare_terminal_run_command, begin_terminal_stop_command,
  set_label_command, remove_label_command, remove_labels_by_source_command,
  update_tool_state_command, raise_attention_command, acknowledge_attention_command,
  remove_attentions_by_source_command,
}
use project_ariadne.Core.Commands.Frame.{Framed}
use project_ariadne.Core.Commands.Frame.Content.{
  set_label-Framed, remove_label-Framed, remove_labels_by_source-Framed, update_tool_state-Framed,
  activate_terminal-Framed, fail_terminal_start-Framed, prepare_terminal_restart-Framed,
  prepare_terminal_run-Framed, begin_terminal_stop-Framed, record_terminal_exit-Framed,
  forget_terminal_session-Framed, acknowledge_attention-Framed, remove_attentions_by_source-Framed,
  raise_attention-Framed,
}
use project_ariadne.Core.Commands.Frame.Places.{
  create_workspace-Framed, rename_workspace-Framed, delete_workspace-Framed, create_window-Framed,
  rename_window-Framed, delete_window-Framed, set_focus-Framed, select_window-Framed,
  create_pane-Framed, split_pane-Framed, create_transient_pane-Framed, resize_split-Framed,
  move_pane-Framed, stash_pane-Framed, restore_pane-Framed, stash_window-Framed,
  restore_window-Framed, close_pane-Framed, set_focus-quiet, select_window-quiet,
}

-- Whatever the state and the limit on attentions, every command keeps the revision and moves no ID
-- counter back, and one that ends in an error has changed nothing but the counters of panes and
-- splits: no frontend's focus and no other part of the state.
pub execute-Framed : (limit : ℕ) (command : Command) → Framed (execute limit command)
unfolding execute
execute-Framed limit (create_transient_pane_command window launch) =
    create_transient_pane-Framed window launch
execute-Framed limit (create_workspace_command name) = create_workspace-Framed name
execute-Framed limit (create_window_command workspace name) = create_window-Framed workspace name
execute-Framed limit (rename_workspace_command workspace name) =
    rename_workspace-Framed workspace name
execute-Framed limit (delete_workspace_command workspace) = delete_workspace-Framed workspace
execute-Framed limit (rename_window_command window name) = rename_window-Framed window name
execute-Framed limit (delete_window_command window) = delete_window-Framed window
execute-Framed limit (create_pane_command window spec) = create_pane-Framed window spec
execute-Framed limit (split_pane_command target d spec) = split_pane-Framed target d spec
execute-Framed limit (move_pane_command p w t d) = move_pane-Framed p w t d
execute-Framed limit (close_pane_command pane) = close_pane-Framed pane
execute-Framed limit (resize_split_command split weights) = resize_split-Framed split weights
execute-Framed limit (stash_pane_command pane) = stash_pane-Framed pane
execute-Framed limit (restore_pane_command c) = restore_pane-Framed c
execute-Framed limit (stash_window_command window) = stash_window-Framed window
execute-Framed limit (restore_window_command c) = restore_window-Framed c
execute-Framed limit (set_focus_command frontend pane) = set_focus-Framed frontend pane
execute-Framed limit (select_window_command frontend window) = select_window-Framed frontend window
execute-Framed limit (record_terminal_exit_command id s x h) = record_terminal_exit-Framed id s x h
execute-Framed limit (forget_terminal_session_command id) = forget_terminal_session-Framed id
execute-Framed limit (activate_terminal_command pane id) = activate_terminal-Framed pane id
execute-Framed limit (fail_terminal_start_command pane m) = fail_terminal_start-Framed pane m
execute-Framed limit (prepare_terminal_restart_command pane) = prepare_terminal_restart-Framed pane
execute-Framed limit (prepare_terminal_run_command pane l) = prepare_terminal_run-Framed pane l
execute-Framed limit (begin_terminal_stop_command pane) = begin_terminal_stop-Framed pane
execute-Framed limit (set_label_command label) = set_label-Framed label
execute-Framed limit (remove_label_command k id s n) = remove_label-Framed k id s n
execute-Framed limit (remove_labels_by_source_command s) = remove_labels_by_source-Framed s
execute-Framed limit (update_tool_state_command d g v s) = update_tool_state-Framed d g v s
execute-Framed limit (raise_attention_command c) = raise_attention-Framed limit c
execute-Framed limit (acknowledge_attention_command id at) = acknowledge_attention-Framed id at
execute-Framed limit (remove_attentions_by_source_command s) = remove_attentions_by_source-Framed s

-- A command on a frontend's focus announces nothing.
pub execute-quiet :
    (limit : ℕ) (command : Command) (m m' : Machine) (reply : Reply) (event : Option Event)
    → changes_persistent_state command ≡ false
    → execute limit command m ≡ (ok (reply, event), m')
    → event ≡ none
unfolding execute changes_persistent_state
execute-quiet limit (set_focus_command f p) m m' reply event h e =
    set_focus-quiet f p m m' reply event e
execute-quiet limit (select_window_command f w) m m' reply event h e =
    select_window-quiet f w m m' reply event e
execute-quiet limit _ m m' reply event h e = ground arith
