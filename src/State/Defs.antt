-- ===== src/State/Defs.antt =====
-- model.go, `type state` and `defaultState`; operations.go, the allocation of IDs.
use project_ariadne.Base.{
  ℕ, suc, String, Bool, false, ◌||◌, Option, none, some, List, [], ◌∷◌, ◌==◌, nat_eq, string_eq,
  Dict, has, if◌then◌else◌,
}
use project_ariadne.Layout.Hint.{StashedPane}
use project_ariadne.Model.Errors.{Result, ok, err, invalid_state}
use project_ariadne.Model.Tool.{ToolDescriptor, ToolInstance}
use project_ariadne.Model.Pane.{Pane}
use project_ariadne.Model.Label.{Label, LabelKey, label_workspace, label_window, label_pane}
use project_ariadne.Model.Attention.{Attention, AttentionKey}
use project_ariadne.Model.Places.{Workspace, Window, StashedWindow}

-- The maps are association lists whose order nothing depends on; the three order lists fix the
-- order in which a snapshot lists the records.
pub record State : Type 0 where
  pub revision : ℕ
  pub next_workspace_id : ℕ
  pub next_window_id : ℕ
  pub next_pane_id : ℕ
  pub next_split_id : ℕ
  pub workspaces : Dict ℕ Workspace
  pub windows : Dict ℕ Window
  pub panes : Dict ℕ Pane
  pub stashed_panes : Dict ℕ StashedPane
  pub stashed_windows : Dict ℕ StashedWindow
  pub labels : Dict LabelKey Label
  pub tool_instances : Dict ToolDescriptor ToolInstance
  pub attentions : Dict ℕ Attention
  pub attention_keys : Dict AttentionKey ℕ
  pub next_attention_id : ℕ
  pub workspace_order : List ℕ
  pub window_order : List ℕ
  pub pane_order : List ℕ

abbrev pub default_workspace : Workspace
default_workspace = record { id = 1; name = "default"; window_ids = 1 ∷ [] }

abbrev pub default_window : Window
default_window = record { id = 1; workspace_id = 1; name = "main"; layout = none }

unfoldable pub default_state : State
default_state = record {
  revision = 0;
  next_workspace_id = 2;
  next_window_id = 2;
  next_pane_id = 1;
  next_split_id = 1;
  workspaces = (1, default_workspace) ∷ [];
  windows = (1, default_window) ∷ [];
  panes = [];
  stashed_panes = [];
  stashed_windows = [];
  labels = [];
  tool_instances = [];
  attentions = [];
  attention_keys = [];
  next_attention_id = 1;
  workspace_order = 1 ∷ [];
  window_order = 1 ∷ [];
  pane_order = [];
}

abbrev pub max_uint64 : ℕ
max_uint64 = 18446744073709551615

-- The common body of the four allocators: the ID to hand out, and the next one.
unfoldable pub allocate : ℕ → Option ℕ
allocate next = if next == 0 || next == max_uint64 then none else some (suc next)

abbrev pub allocated : State → ℕ → (ℕ → State) → Option ℕ → Result ℕ × State
allocated s id with_next none = (err invalid_state, s)
allocated s id with_next (some next) = (ok id, with_next next)

unfoldable pub allocate_workspace_id : State → Result ℕ × State
allocate_workspace_id s =
    allocated s s.next_workspace_id (λ n. record s { next_workspace_id = n })
      (allocate s.next_workspace_id)

unfoldable pub allocate_window_id : State → Result ℕ × State
allocate_window_id s =
    allocated s s.next_window_id (λ n. record s { next_window_id = n }) (allocate s.next_window_id)

unfoldable pub allocate_pane_id : State → Result ℕ × State
allocate_pane_id s =
    allocated s s.next_pane_id (λ n. record s { next_pane_id = n }) (allocate s.next_pane_id)

unfoldable pub allocate_split_id : State → Result ℕ × State
allocate_split_id s =
    allocated s s.next_split_id (λ n. record s { next_split_id = n }) (allocate s.next_split_id)

unfoldable pub label_target_exists : State → String → ℕ → Bool
label_target_exists s kind id =
    if kind == label_workspace
    then has id s.workspaces
    else (if kind == label_window
        then has id s.windows
        else (if kind == label_pane then has id s.panes else false))
