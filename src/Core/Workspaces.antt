-- ===== src/Core/Workspaces.antt =====
-- operations.go: the commands on workspaces.
use project_ariadne.Base.{
  ℕ, String, Bool, not, ◌&&◌, ◌||◌, List, [], ◌∷◌, ◌++◌, ◌==◌, nat_eq, string_eq, get, put, delete,
  values, any, length, without, is_blank,
}
use project_ariadne.Model.Errors.{ok, invalid_argument, invalid_state, not_found, already_exists}
use project_ariadne.Model.Label.{Label, label_workspace}
use project_ariadne.Model.Places.{Workspace, FrontendState}
use project_ariadne.State.Defs.{State, allocate_workspace_id}
use project_ariadne.Core.Events.{
  workspace_created, workspace_renamed, workspace_deleted, workspace_created_event, workspace_event,
  workspace_deleted_event, create_workspace_result, workspace_result, delete_workspace_result,
}
use project_ariadne.Core.Labels.{remove_target_labels}
use project_ariadne.Core.Machine.{
  Exec, Outcome, ◌>>=◌, ◌>>◌, refuse_if, or_fail, current, store, allocating, announce, refocus,
  reset_if,
}

abbrev pub new_workspace : ℕ → String → Workspace
new_workspace id name = record { id = id; name = name; window_ids = [] }

unfoldable pub create_workspace : String → Exec Outcome
create_workspace name = do
  refuse_if (is_blank name) invalid_argument
  s ← current
  refuse_if (any (λ (w : Workspace). w.name == name) (values s.workspaces)) already_exists
  id ← allocating allocate_workspace_id
  s' ← current
  let workspace = new_workspace id name
  store (record s' {
    workspaces = put id workspace s'.workspaces;
    workspace_order = s'.workspace_order ++ id ∷ [];
  })
  announce (create_workspace_result workspace) workspace_created (workspace_created_event workspace)

-- Another workspace than `id`, of that name.
abbrev pub named_elsewhere : ℕ → String → ℕ × Workspace → Bool
named_elsewhere id name (key, other) = not (key == id) && other.name == name

unfoldable pub rename_workspace : ℕ → String → Exec Outcome
rename_workspace id name = do
  s ← current
  workspace ← or_fail (get id s.workspaces) not_found
  refuse_if (is_blank name) invalid_argument
  refuse_if (any (named_elsewhere workspace.id name) s.workspaces) already_exists
  let renamed = record workspace { name = name }
  store (record s { workspaces = put workspace.id renamed s.workspaces })
  announce (workspace_result renamed) workspace_renamed (workspace_event renamed)

-- Stores the state that a removal of labels left, and hands on the labels.
abbrev pub forget_labels : State × List Label → Exec (List Label)
forget_labels (s, removed) m = (ok removed, record m { state = s })

-- A workspace can be deleted if it has no window and is not the last one.
unfoldable pub delete_workspace : ℕ → Exec Outcome
delete_workspace id = do
  s ← current
  workspace ← or_fail (get id s.workspaces) not_found
  refuse_if (not (length workspace.window_ids == 0) || length s.workspaces == 1) invalid_state
  let removed_s = record s {
    workspaces = delete workspace.id s.workspaces;
    workspace_order = without workspace.id s.workspace_order;
  }
  removed ← forget_labels (remove_target_labels label_workspace workspace.id removed_s)
  s' ← current
  refocus (reset_if s' (λ (f : FrontendState). f.workspace_id == workspace.id))
  announce (delete_workspace_result workspace removed) workspace_deleted
      (workspace_deleted_event workspace removed)
