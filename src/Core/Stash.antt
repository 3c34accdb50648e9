-- ===== src/Core/Stash.antt =====
-- stash.go: panes and windows leave the workspaces and come back.
use project_ariadne.Base.{
  ℕ, Bool, true, false, not, ◌&&◌, ◌||◌, Option, none, some, ◌==◌, nat_eq, string_eq, get, get_or,
  has, put, delete, if◌then◌else◌, is_some, any, values,
}
use project_ariadne.Layout.Tree.{LayoutNode, pane_leaf}
use project_ariadne.Layout.Edit.{insert_relative, insertion_requires_split, split_by_id}
use project_ariadne.Layout.Hint.{StashedPane, pane_stash_hint}
use project_ariadne.Model.Errors.{CoreError, ok, invalid_argument, invalid_state, not_found}
use project_ariadne.Model.Pane.{Pane, zero_pane}
use project_ariadne.Model.Places.{Window}
use project_ariadne.State.Defs.{State, allocate_split_id}
use project_ariadne.Core.Events.{pane_stashed, pane_restored, pane_stash_event, pane_stash_result}
use project_ariadne.Core.Closing.{without_pane, look_away}
use project_ariadne.Core.Destinations.{RestorePane, Destination, restore_pane_destination}
use project_ariadne.Core.Machine.{
  checked, Exec, Outcome, ◌>>=◌, ◌>>◌, raise, refuse_if, or_fail, current, returning, store,
  allocating, announce, refocus,
}

unfoldable pub stash_pane : ℕ → Exec Outcome
stash_pane pane_id = do
  s ← current
  p ← or_fail (get pane_id s.panes) not_found
  refuse_if (has p.id s.stashed_panes) invalid_state
  refuse_if (has p.window_id s.stashed_windows) invalid_state
  window ← or_fail (get p.window_id s.windows) invalid_state
  layout ← or_fail window.layout invalid_state
  hint ← or_fail (pane_stash_hint p.id layout) invalid_state
  let stashed = record hint {
    pane_id = p.id;
    origin_workspace_id = window.workspace_id;
    origin_window_id = window.id;
  }
  left ← checked (without_pane p.id (some layout))
  let shown = record window { layout = left }
  store (record s {
    windows = put shown.id shown s.windows;
    stashed_panes = put p.id stashed s.stashed_panes;
  })
  refocus (look_away p.id shown)
  announce (pane_stash_result p shown stashed) pane_stashed (pane_stash_event p shown stashed)

-- `splitIDExists`.
abbrev has_split : ℕ → Window → Bool
has_split id window = elim window.layout [
  | none ↦ false
  | some layout ↦ is_some (split_by_id id layout)
]

unfoldable pub split_id_exists : State → ℕ → Bool
split_id_exists s id = any (has_split id) (values s.windows)

-- The split ID for the way back: the old one if it is free.
abbrev same_id : ℕ → Exec ℕ
same_id id m = (ok id, m)

unfoldable pub split_id_to_restore : State → StashedPane → Bool × Bool → Exec ℕ
split_id_to_restore s hint (required, false) = raise invalid_state
split_id_to_restore s hint (false, true) = same_id 0
split_id_to_restore s hint (true, true) =
    if hint.original_split_id == 0 || split_id_exists s hint.original_split_id
    then allocating allocate_split_id
    else same_id hint.original_split_id

-- The saved weights hold only for the saved place.
unfoldable pub at_saved_place : RestorePane → StashedPane → Destination → Bool
at_saved_place c hint d =
    c.destination_window_id == 0
    && d.window.id == hint.origin_window_id
    && d.target == hint.target_pane_id
    && d.direction == hint.direction

abbrev layout_with :
    State → ℕ → RestorePane → StashedPane → Destination → Option LayoutNode → Exec LayoutNode
layout_with s pane_id c hint d none m = (ok (pane_leaf pane_id), m)
layout_with s pane_id c hint d (some layout) m =
    (do
      split_id ← split_id_to_restore s hint (insertion_requires_split d.target d.direction layout)
      let weight = if at_saved_place c hint d then hint.weight else 1
      let target_weight = if at_saved_place c hint d then hint.target_weight else 1
      or_fail
          (insert_relative d.target pane_id d.direction d.before weight target_weight split_id
            layout)
          invalid_state)
      m

abbrev destination_now : RestorePane → StashedPane → Exec Destination
destination_now c hint m = checked (restore_pane_destination m c hint) m

abbrev missing_stash : State → ℕ → CoreError
missing_stash s pane_id = if has pane_id s.panes then invalid_state else not_found

-- The checks: the pane, its hint and where it goes.
unfoldable pub restore_checks : RestorePane → Exec (Pane × StashedPane × Destination)
restore_checks c = do
  refuse_if
      (c.destination_window_id == 0 && (not (c.target_pane_id == 0) || not (c.direction == "")))
      invalid_argument
  s ← current
  let p = get_or c.pane_id zero_pane s.panes
  refuse_if p.transient invalid_state
  hint ← or_fail (get c.pane_id s.stashed_panes) (missing_stash s c.pane_id)
  d ← destination_now c hint
  returning (p, hint, d)

unfoldable pub put_back : RestorePane → Pane × StashedPane × Destination → Exec Outcome
put_back c (p, hint, d) = do
  s ← current
  layout ← layout_with s p.id c hint d d.window.layout
  s' ← current
  let shown = record d.window { layout = some layout }
  let back = record p { window_id = shown.id }
  store (record s' {
    panes = put back.id back s'.panes;
    windows = put shown.id shown s'.windows;
    stashed_panes = delete back.id s'.stashed_panes;
  })
  announce (pane_stash_result back shown hint) pane_restored (pane_stash_event back shown hint)

unfoldable pub restore_pane : RestorePane → Exec Outcome
restore_pane c = restore_checks c >>= put_back c
