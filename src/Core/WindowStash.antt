-- ===== src/Core/WindowStash.antt =====
-- stash.go: `stashWindow` and `restoreWindow`.
pub mod Order
pub mod Done
pub mod Return
use project_ariadne.Base.{
  ℕ, zero, suc, Bool, true, false, not, ◌&&◌, ◌||◌, Option, none, some, List, [], ◌∷◌, ◌==◌, nat_eq,
  string_eq, get, get_or, has, put, delete, if◌then◌else◌, is_some, any, values, length, without,
  ltb, contains,
}
use project_ariadne.Layout.Tree.{
  LayoutNode, SplitDirection, split_vertical, valid_direction, pane_leaf, first_pane,
  layout_contains_pane,
}
use project_ariadne.Layout.Edit.{insert_relative, insertion_requires_split, split_by_id}
use project_ariadne.Layout.Hint.{StashedPane, pane_stash_hint}
use project_ariadne.Model.Errors.{
  CoreError, Result, ok, err, invalid_argument, invalid_state, not_found, already_exists,
}
use project_ariadne.Model.Pane.{Pane, zero_pane}
use project_ariadne.Model.Places.{
  Workspace, Window, StashedWindow, FrontendState, zero_workspace, zero_window,
}
use project_ariadne.State.Defs.{State, allocate_split_id}
use project_ariadne.Core.Events.{
  pane_stashed, pane_restored, window_stashed, window_restored, pane_stash_event,
  window_stash_event, pane_stash_result, window_stash_result,
}
use project_ariadne.Core.Closing.{without_pane, look_away}
use project_ariadne.Core.Windows.{window_named}
use project_ariadne.Core.Machine.{
  checked, Machine, Exec, Outcome, ◌>>=◌, ◌>>◌, raise, refuse_if, or_fail, current, returning,
  store, allocating, announce, refocus, reset_if, first_workspace_id,
}

-- `indexWindowID`; -1 is `none`.
unfoldable pub index_window_id : List ℕ → ℕ → Option ℕ
index_window_id [] target = none
index_window_id (id ∷ ids) target =
    let rest = index_window_id ids target in
    if id == target then some 0 else elim rest [ none ↦ none | some i ↦ some (suc i) ]

-- `insertWindowID`. Past the end the source panics; here the ID goes to the end.
unfoldable pub insert_window_id : List ℕ → ℕ → ℕ → List ℕ
insert_window_id ids zero id = id ∷ ids
insert_window_id [] (suc index) id = id ∷ []
insert_window_id (x ∷ ids) (suc index) id = x ∷ insert_window_id ids index id

unfoldable pub stash_window : ℕ → Exec Outcome
stash_window window_id = do
  s ← current
  window ← or_fail (get window_id s.windows) not_found
  refuse_if (has window.id s.stashed_windows) invalid_state
  refuse_if (any (λ (h : StashedPane). h.origin_window_id == window.id) (values s.stashed_panes))
      invalid_state
  workspace ← or_fail (get window.workspace_id s.workspaces) invalid_state
  index ← or_fail (index_window_id workspace.window_ids window.id) invalid_state
  let hint : StashedWindow = record {
    window_id = window.id;
    origin_workspace_id = workspace.id;
    original_window_index = index;
  }
  let left = record workspace { window_ids = without window.id workspace.window_ids }
  let s' = record s {
    workspaces = put left.id left s.workspaces;
    stashed_windows = put window.id hint s.stashed_windows;
  }
  store s'
  refocus (reset_if s' (λ (f : FrontendState). f.window_id == window.id))
  announce (window_stash_result window left hint) window_stashed
      (window_stash_event window left hint)

pub record RestoreWindow : Type 0 where
  pub frontend_id : ℕ
  pub window_id : ℕ
  pub workspace_id : ℕ

abbrev or_first : State → ℕ → ℕ
or_first s id = if id == 0 then first_workspace_id s else id

abbrev frontend_workspace : Option FrontendState → ℕ
frontend_workspace none = 0
frontend_workspace (some f) = f.workspace_id

-- The workspace to go to: the one asked for, the old one, the frontend's, or the first.
unfoldable pub restore_workspace_id : Machine → RestoreWindow → StashedWindow → ℕ
restore_workspace_id m c hint =
    if not (c.workspace_id == 0)
    then c.workspace_id
    else or_first m.state (
        if has hint.origin_workspace_id m.state.workspaces
        then hint.origin_workspace_id
        else frontend_workspace (get c.frontend_id m.frontends))

abbrev workspace_now : RestoreWindow → StashedWindow → Exec ℕ
workspace_now c hint m = (ok (restore_workspace_id m c hint), m)

abbrev missing_window : State → ℕ → CoreError
missing_window s window_id = if has window_id s.windows then invalid_state else not_found

unfoldable pub restore_index : RestoreWindow → StashedWindow → Workspace → ℕ
restore_index c hint workspace =
    if c.workspace_id == 0
      && workspace.id == hint.origin_workspace_id
      && ltb hint.original_window_index (length workspace.window_ids)
    then hint.original_window_index
    else length workspace.window_ids

unfoldable pub restore_window : RestoreWindow → Exec Outcome
restore_window c = do
  s ← current
  hint ← or_fail (get c.window_id s.stashed_windows) (missing_window s c.window_id)
  let window = get_or c.window_id zero_window s.windows
  workspace_id ← workspace_now c hint
  workspace ← or_fail (get workspace_id s.workspaces) not_found
  refuse_if (any (window_named s window.name) workspace.window_ids) already_exists
  let widened = record workspace {
    window_ids = insert_window_id workspace.window_ids (restore_index c hint workspace) window.id;
  }
  let back = record window { workspace_id = workspace.id }
  store (record s {
    windows = put back.id back s.windows;
    workspaces = put widened.id widened s.workspaces;
    stashed_windows = delete back.id s.stashed_windows;
  })
  announce (window_stash_result back widened hint) window_restored
      (window_stash_event back widened hint)
