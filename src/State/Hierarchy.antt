-- ===== src/State/Hierarchy.antt =====
-- model.go, `validateHierarchy` and the maxima of the IDs in use. `none` and `false` stand for an
-- error that wraps ErrInvalidState.
use project_ariadne.Base.{
  ℕ, Bool, true, false, not, ◌&&◌, ◌||◌, Option, none, some, List, [], ◌∷◌, ◌==◌, nat_eq, Dict, get,
  has, get_or, keys, values, if◌then◌else◌, ltb, all, contains, ◌>>=?◌,
}
use project_ariadne.Layout.Tree.{LayoutNode, visit_split_ids}
use project_ariadne.Layout.Hint.{StashedPane}
use project_ariadne.Layout.Validate.{validate_layout}
use project_ariadne.Model.Pane.{Pane}
use project_ariadne.Model.Places.{Window, zero_workspace, zero_window}
use project_ariadne.State.Defs.{State}

abbrev pub beq_bool : Bool → Bool → Bool
beq_bool true b = b
beq_bool false b = not b

-- The windows of one workspace: each exists, belongs to it, and was not listed before.
abbrev pub belongs : ℕ → Option Window → Bool
belongs workspace_id none = false
belongs workspace_id (some window) = window.workspace_id == workspace_id

unfoldable pub see_windows : State → ℕ → List ℕ → List ℕ → Option (List ℕ)
see_windows s workspace_id [] seen = some seen
see_windows s workspace_id (id ∷ ids) seen =
    let rest = see_windows s workspace_id ids (id ∷ seen) in
    if not (belongs workspace_id (get id s.windows)) || contains id seen then none else rest

unfoldable pub see_workspaces : State → List ℕ → List ℕ → Option (List ℕ)
unfolding see_windows
see_workspaces s [] seen = some seen
see_workspaces s (id ∷ ids) seen =
    let workspace = get_or id zero_workspace s.workspaces in
    see_windows s workspace.id workspace.window_ids seen >>=? see_workspaces s ids

-- The callback of `validateHierarchy`: the pane exists, belongs to the window and is new.
abbrev pub shown_in : ℕ → Option Pane → Bool
shown_in window_id none = false
shown_in window_id (some pane) = pane.window_id == window_id

unfoldable pub see_pane : State → ℕ → ℕ → List ℕ → Option (List ℕ)
see_pane s window_id id seen =
    if not (shown_in window_id (get id s.panes)) || contains id seen then none else some (id ∷ seen)

abbrev see_layout : State → ℕ → Option LayoutNode → List ℕ → List ℕ → Option (List ℕ × List ℕ)
see_layout s window_id none splits seen = some (splits, seen)
see_layout s window_id (some layout) splits seen =
    validate_layout (see_pane s window_id) layout splits seen

unfoldable pub see_layouts : State → List ℕ → List ℕ → List ℕ → Option (List ℕ)
unfolding see_pane
see_layouts s [] splits seen = some seen
see_layouts s (id ∷ ids) splits seen =
    let window = get_or id zero_window s.windows in
    see_layout s window.id window.layout splits seen >>=? λ st. see_layouts s ids st.0 st.1

-- A window is listed by a workspace or stashed, and not both.
unfoldable pub windows_placed : State → List ℕ → Bool
windows_placed s seen =
    all (λ id. not (beq_bool (contains id seen) (has id s.stashed_windows))) (keys s.windows)

-- So is a pane; and a stashed pane's window is not itself stashed.
abbrev pane_placed : State → List ℕ → ℕ × Pane → Bool
pane_placed s seen (id, pane) =
    not (beq_bool (contains id seen) (has id s.stashed_panes))
    && not (has id s.stashed_panes && has pane.window_id s.stashed_windows)

unfoldable pub panes_placed : State → List ℕ → Bool
panes_placed s seen = all (pane_placed s seen) s.panes

abbrev pub passed : Bool → Option (Unit {0})
passed true = some tt
passed false = none

unfoldable pub validate_hierarchy : State → Option (Unit {0})
unfolding see_workspaces see_layouts windows_placed panes_placed
validate_hierarchy s = see_workspaces s s.workspace_order [] >>=? λ windows.
    passed (windows_placed s windows) >>=? λ _.
    see_layouts s s.window_order [] [] >>=? λ panes. passed (panes_placed s panes)

-- The greatest key; 0 for an empty map.
unfoldable pub max_of : List ℕ → ℕ
max_of [] = 0
max_of (k ∷ ks) = let m = max_of ks in if ltb m k then k else m

unfoldable pub max_key : {V : Type 0} → Dict ℕ V → ℕ
unfolding max_of
max_key m = max_of (keys m)

abbrev visit_layout : ℕ → Option LayoutNode → ℕ
visit_layout maximum none = maximum
visit_layout maximum (some layout) = visit_split_ids maximum layout

unfoldable pub max_split_id_from : ℕ → List Window → ℕ
max_split_id_from maximum [] = maximum
max_split_id_from maximum (w ∷ ws) = max_split_id_from (visit_layout maximum w.layout) ws

unfoldable pub max_split_id : Dict ℕ Window → ℕ
unfolding max_split_id_from
max_split_id windows = max_split_id_from 0 (values windows)

unfoldable pub max_stashed_split_id : List StashedPane → ℕ
max_stashed_split_id [] = 0
max_stashed_split_id (p ∷ ps) =
    let m = max_stashed_split_id ps in if ltb m p.original_split_id then p.original_split_id else m
