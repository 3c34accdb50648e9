-- ===== src/Core/Windows.antt =====
-- operations.go: the commands on windows, and the focus of a frontend.
use project_ariadne.Base.{
  ℕ, String, Bool, not, ◌&&◌, none, [], ◌∷◌, ◌++◌, ◌==◌, nat_eq, string_eq, get, get_or, has, put,
  delete, any, without, is_blank, is_some,
}
use project_ariadne.Model.Errors.{invalid_argument, invalid_state, not_found, already_exists}
use project_ariadne.Model.Label.{label_window}
use project_ariadne.Model.Places.{Window, FrontendState, zero_workspace, zero_window}
use project_ariadne.State.Defs.{State, allocate_window_id}
use project_ariadne.Core.Events.{
  window_created, window_renamed, window_deleted, window_created_event, window_event,
  window_deleted_event, create_window_result, window_result, delete_window_result, set_focus_result,
}
use project_ariadne.Core.Labels.{remove_target_labels}
use project_ariadne.Core.Workspaces.{forget_labels}
use project_ariadne.Core.Machine.{
  Exec, Outcome, ◌>>=◌, ◌>>◌, refuse_if, or_fail, current, store, allocating, announce, quietly,
  refocus, reset_if, first_pane_of,
}

-- The name of the window that an ID reads.
abbrev pub window_named : State → String → ℕ → Bool
window_named s name id = (get_or id zero_window s.windows).name == name

abbrev pub new_window : ℕ → ℕ → String → Window
new_window id workspace_id name = record {
  id = id;
  workspace_id = workspace_id;
  name = name;
  layout = none;
}

unfoldable pub create_window : ℕ → String → Exec Outcome
create_window workspace_id name = do
  s ← current
  workspace ← or_fail (get workspace_id s.workspaces) not_found
  refuse_if (is_blank name) invalid_argument
  refuse_if (any (window_named s name) workspace.window_ids) already_exists
  id ← allocating allocate_window_id
  s' ← current
  let window = new_window id workspace.id name
  store (record s' {
    windows = put id window s'.windows;
    window_order = s'.window_order ++ id ∷ [];
    workspaces =
        put workspace.id (record workspace { window_ids = workspace.window_ids ++ id ∷ [] })
          s'.workspaces;
  })
  announce (create_window_result window) window_created (window_created_event window)

unfoldable pub rename_window : ℕ → String → Exec Outcome
rename_window id name = do
  s ← current
  window ← or_fail (get id s.windows) not_found
  refuse_if (is_blank name) invalid_argument
  let workspace = get_or window.workspace_id zero_workspace s.workspaces
  refuse_if
      (any (λ other. not (other == window.id) && window_named s name other) workspace.window_ids)
      already_exists
  let renamed = record window { name = name }
  store (record s { windows = put window.id renamed s.windows })
  announce (window_result renamed) window_renamed (window_event renamed)

-- Only a visible window without a pane can be deleted.
unfoldable pub delete_window : ℕ → Exec Outcome
delete_window id = do
  s ← current
  window ← or_fail (get id s.windows) not_found
  refuse_if (has window.id s.stashed_windows) invalid_state
  refuse_if (is_some window.layout) invalid_state
  let workspace = get_or window.workspace_id zero_workspace s.workspaces
  let left = record workspace { window_ids = without window.id workspace.window_ids }
  let removed_s = record s {
    workspaces = put left.id left s.workspaces;
    windows = delete window.id s.windows;
    window_order = without window.id s.window_order;
  }
  removed ← forget_labels (remove_target_labels label_window window.id removed_s)
  s' ← current
  refocus (reset_if s' (λ (f : FrontendState). f.window_id == window.id))
  announce (delete_window_result window left removed) window_deleted
      (window_deleted_event window left removed)

-- The frontend's focus is all that the two commands below change.
abbrev focus_on : ℕ → FrontendState → Exec Outcome
focus_on frontend_id focus m =
    quietly (set_focus_result focus) (record m { frontends = put frontend_id focus m.frontends })

abbrev the_frontend : ℕ → Exec FrontendState
the_frontend id m = or_fail (get id m.frontends) not_found m

unfoldable pub set_focus : ℕ → ℕ → Exec Outcome
set_focus frontend_id pane_id = do
  frontend ← the_frontend frontend_id
  s ← current
  pane ← or_fail (get pane_id s.panes) not_found
  refuse_if (has pane.id s.stashed_panes) invalid_state
  refuse_if (has pane.window_id s.stashed_windows) invalid_state
  let window = get_or pane.window_id zero_window s.windows
  focus_on frontend_id (record frontend {
    workspace_id = window.workspace_id;
    window_id = window.id;
    pane_id = pane.id;
  })

unfoldable pub select_window : ℕ → ℕ → Exec Outcome
select_window frontend_id window_id = do
  frontend ← the_frontend frontend_id
  s ← current
  window ← or_fail (get window_id s.windows) not_found
  refuse_if (has window.id s.stashed_windows) invalid_state
  focus_on frontend_id (record frontend {
    workspace_id = window.workspace_id;
    window_id = window.id;
    pane_id = first_pane_of window.layout;
  })
