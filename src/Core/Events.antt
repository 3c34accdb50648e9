-- ===== src/Core/Events.antt =====
-- event.go: the events, and command.go: the replies of commands.
use project_ariadne.Base.{ℕ, Bool, Option, List, String}
use project_ariadne.Layout.Hint.{StashedPane}
use project_ariadne.Model.Tool.{ToolInstance}
use project_ariadne.Model.Pane.{Pane}
use project_ariadne.Model.Label.{Label}
use project_ariadne.Model.Attention.{Attention}
use project_ariadne.Model.Places.{Workspace, Window, StashedWindow, FrontendState}

pub data EventKind : Type 0 where
  workspace_created workspace_renamed workspace_deleted : EventKind
  window_created window_renamed window_deleted : EventKind
  pane_created pane_moved pane_closed split_resized pane_stashed pane_restored : EventKind
  window_stashed window_restored : EventKind
  terminal_exited terminal_unavailable terminal_started terminal_start_failed : EventKind
  terminal_restarting terminal_run_prepared terminal_stopping : EventKind
  label_set label_removed label_source_cleared : EventKind
  tool_state_updated attention_raised attention_acknowledged attention_source_cleared : EventKind

-- One constructor for each payload type.
pub data Payload : Type 0 where
  workspace_created_event : Workspace → Payload
  workspace_event : Workspace → Payload
  workspace_deleted_event : Workspace → List Label → Payload
  window_created_event : Window → Payload
  window_event : Window → Payload
  window_deleted_event : Window → Workspace → List Label → Payload
  pane_created_event : Pane → Window → ℕ → String → Option ToolInstance → Payload
  pane_moved_event : Pane → Window → Window → ℕ → String → Payload
  pane_closed_event : Pane → Window → List Label → Option ToolInstance → List Attention → Payload
  pane_stash_event : Pane → Window → StashedPane → Payload
  window_stash_event : Window → Workspace → StashedWindow → Payload
  terminal_event : Pane → Payload
  label_event : Label → Payload
  labels_event : List Label → Payload
  tool_event : ToolInstance → Payload
  attention_event : Attention → List Attention → Payload
  attentions_event : List Attention → Payload

pub record Event : Type 0 where
  pub revision : ℕ
  pub kind : EventKind
  pub payload : Payload

-- One constructor for each result type.
pub data Reply : Type 0 where
  create_workspace_result : Workspace → Reply
  workspace_result : Workspace → Reply
  delete_workspace_result : Workspace → List Label → Reply
  create_window_result : Window → Reply
  window_result : Window → Reply
  delete_window_result : Window → Workspace → List Label → Reply
  create_pane_result : Pane → Window → Reply
  move_pane_result : Pane → Window → Window → Reply
  close_pane_result : Pane → Window → Reply
  resize_split_result : Window → Reply
  pane_stash_result : Pane → Window → StashedPane → Reply
  window_stash_result : Window → Workspace → StashedWindow → Reply
  set_focus_result : FrontendState → Reply
  terminal_result : Pane → Reply
  label_result : Label → Bool → Reply
  remove_labels_result : List Label → Reply
  tool_state_result : ToolInstance → Reply
  attention_result : Attention → Bool → Reply
  remove_attentions_result : List Attention → Reply
