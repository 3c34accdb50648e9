-- ===== src/State/Snapshots.antt =====
-- model.go, `type Snapshot` and `(*state).snapshot`. Values are immutable here, so a deep copy is
-- the value itself.
use project_ariadne.Base.{
  ℕ, Bool, false, not, Option, none, some, List, [], ◌∷◌, map, ◌==◌, nat_eq, string_eq, get_all,
  get_or, values, if◌then◌else◌, ltb, string_ltb, sort,
}
use project_ariadne.Layout.Hint.{StashedPane}
use project_ariadne.Model.Tool.{ToolDescriptor, ToolInstance}
use project_ariadne.Model.Pane.{Pane, zero_pane, terminal_id_of}
use project_ariadne.Model.Label.{Label, label_before}
use project_ariadne.Model.Attention.{Attention}
use project_ariadne.Model.Places.{Workspace, Window, StashedWindow, zero_workspace, zero_window}
use project_ariadne.State.Defs.{State, default_state}

pub record Snapshot : Type 0 where
  pub revision : ℕ
  pub next_workspace_id : ℕ
  pub next_window_id : ℕ
  pub next_pane_id : ℕ
  pub next_split_id : ℕ
  pub workspaces : List Workspace
  pub windows : List Window
  pub panes : List Pane
  pub stashed_panes : List StashedPane
  pub stashed_windows : List StashedWindow
  pub labels : List Label
  pub tool_instances : List ToolInstance
  pub attentions : List Attention

unfoldable pub tool_before : ToolInstance → ToolInstance → Bool
tool_before a b = compare_descriptors a.descriptor b.descriptor
  where
    compare_descriptors : ToolDescriptor → ToolDescriptor → Bool
    compare_descriptors l r =
        if not (l.provider == r.provider)
        then string_ltb l.provider r.provider
        else (if not (l.tool_type == r.tool_type)
            then string_ltb l.tool_type r.tool_type
            else string_ltb l.instance_name r.instance_name)

abbrev pub attention_before : Attention → Attention → Bool
attention_before a b = ltb a.id b.id

unfoldable pub snapshot : State → Snapshot
unfolding tool_before
snapshot s = record {
  revision = s.revision;
  next_workspace_id = s.next_workspace_id;
  next_window_id = s.next_window_id;
  next_pane_id = s.next_pane_id;
  next_split_id = s.next_split_id;
  workspaces = map (λ id. get_or id zero_workspace s.workspaces) s.workspace_order;
  windows = map (λ id. get_or id zero_window s.windows) s.window_order;
  panes = map (λ id. get_or id zero_pane s.panes) s.pane_order;
  stashed_panes = get_all s.pane_order s.stashed_panes;
  stashed_windows = get_all s.window_order s.stashed_windows;
  labels = sort label_before (values s.labels);
  tool_instances = sort tool_before (values s.tool_instances);
  attentions = sort attention_before (values s.attentions);
}

unfoldable pub default_snapshot : Snapshot
unfolding snapshot default_state
default_snapshot = snapshot default_state

abbrev has_terminal_id : ℕ → Option ℕ → Bool
has_terminal_id id none = false
has_terminal_id id (some other) = other == id

first_with_terminal : ℕ → List Pane → Option Pane
first_with_terminal id [] = none
first_with_terminal id (p ∷ ps) =
    let rest = first_with_terminal id ps in
    if has_terminal_id id (terminal_id_of p.terminal) then some p else rest

-- `Snapshot.PaneByTerminalID`.
unfoldable pub pane_by_terminal_id : Snapshot → ℕ → Option Pane
unfolding first_with_terminal
pane_by_terminal_id snap id = if id == 0 then none else first_with_terminal id snap.panes
