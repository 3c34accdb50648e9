-- ===== src/Core/Destinations.antt =====
-- stash.go: where a pane goes back to.
use project_ariadne.Base.{
  ℕ, Bool, false, not, ◌&&◌, ◌||◌, Option, none, some, List, [], ◌∷◌, ◌==◌, nat_eq, string_eq, get,
  get_or, has, if◌then◌else◌, contains,
}
use project_ariadne.Layout.Tree.{
  LayoutNode, SplitDirection, split_vertical, valid_direction, first_pane, layout_contains_pane,
}
use project_ariadne.Layout.Hint.{StashedPane}
use project_ariadne.Model.Errors.{Result, ok, err, invalid_argument, invalid_state, not_found}
use project_ariadne.Model.Pane.{Pane}
use project_ariadne.Model.Places.{Workspace, Window, zero_workspace}
use project_ariadne.State.Defs.{State}
use project_ariadne.Core.Machine.{Machine}

-- `visibleWindow`.
abbrev lists_window : ℕ → Option Workspace → Bool
lists_window id none = false
lists_window id (some workspace) = contains id workspace.window_ids

unfoldable pub visible_window : State → ℕ → Option Window
visible_window s id = elim (get id s.windows) [
  | none ↦ none
  | some window ↦
      if has id s.stashed_windows || not (lists_window id (get window.workspace_id s.workspaces))
      then none
      else some window
]

abbrev window_or : Option Window → Option Window → Option Window
window_or (some w) rest = some w
window_or none rest = rest

unfoldable pub first_visible_among : State → List ℕ → Option Window
unfolding visible_window
first_visible_among s [] = none
first_visible_among s (id ∷ ids) = window_or (visible_window s id) (first_visible_among s ids)

unfoldable pub first_visible_from : State → List ℕ → Option Window
unfolding first_visible_among
first_visible_from s [] = none
first_visible_from s (w ∷ ws) =
    window_or (first_visible_among s (get_or w zero_workspace s.workspaces).window_ids)
      (first_visible_from s ws)

-- `firstVisibleWindow`.
unfoldable pub first_visible_window : State → Option Window
unfolding first_visible_from
first_visible_window s = first_visible_from s s.workspace_order

-- Where a pane goes back to.
pub record Destination : Type 0 where
  pub window : Window
  pub target : ℕ
  pub direction : SplitDirection
  pub before : Bool

-- `validateRestorePlacement`.
abbrev target_shown : Window → LayoutNode → ℕ → Option Pane → Bool
target_shown window layout target none = false
target_shown window layout target (some p) =
    p.window_id == window.id && layout_contains_pane target layout

unfoldable pub validate_restore_placement : State → Window → ℕ → SplitDirection → Result Destination
validate_restore_placement s window target direction = elim window.layout [
  | none ↦
      if not (target == 0) || not (direction == "")
      then err invalid_argument
      else ok (record { window = window; target = 0; direction = ""; before = false })
  | some layout ↦
      if target == 0 || not (valid_direction direction)
      then err invalid_argument
      else (if target_shown window layout target (get target s.panes)
          then ok
              (record { window = window; target = target; direction = direction; before = false })
          else err not_found)
]

-- `defaultRestorePlacement`: behind the first pane.
abbrev pub default_restore_placement : Window → Option LayoutNode → Destination
default_restore_placement window none = record {
  window = window;
  target = 0;
  direction = "";
  before = false;
}
default_restore_placement window (some layout) = record {
  window = window;
  target = first_pane layout;
  direction = split_vertical;
  before = false;
}

abbrev default_in : Window → Destination
default_in window = default_restore_placement window window.layout

abbrev first_or_error : Option Window → Result Destination
first_or_error none = err invalid_state
first_or_error (some window) = ok (default_in window)

-- The window that the frontend looks at, if that is visible.
unfoldable pub frontend_window : Machine → ℕ → Option Window
frontend_window m frontend_id = elim (get frontend_id m.frontends) [
  | none ↦ none
  | some f ↦ visible_window m.state f.window_id
]

-- Where the saved placement can be used: an empty origin window, or one that shows the target.
abbrev saved_in : State → StashedPane → Option Window → Option Destination
saved_in s hint none = none
saved_in s hint (some window) = elim window.layout [
  | none ↦ some (record { window = window; target = 0; direction = ""; before = false })
  | some layout ↦
      if target_shown window layout hint.target_pane_id (get hint.target_pane_id s.panes)
      then some (record {
        window = window;
        target = hint.target_pane_id;
        direction = hint.direction;
        before = hint.before;
      })
      else none
]

abbrev fallback : Option Window → Option Window → Result Destination
fallback (some window) first = ok (default_in window)
fallback none first = first_or_error first

abbrev saved_or : Option Destination → Result Destination → Result Destination
saved_or (some destination) rest = ok destination
saved_or none rest = rest

abbrev explicit_destination : State → Option Window → ℕ → SplitDirection → Result Destination
explicit_destination s none target direction = err not_found
explicit_destination s (some window) target direction =
    validate_restore_placement s window target direction

pub record RestorePane : Type 0 where
  pub frontend_id : ℕ
  pub pane_id : ℕ
  pub destination_window_id : ℕ
  pub target_pane_id : ℕ
  pub direction : SplitDirection

-- `restorePaneDestination`.
unfoldable pub restore_pane_destination : Machine → RestorePane → StashedPane → Result Destination
unfolding frontend_window first_visible_window validate_restore_placement
restore_pane_destination m c hint =
    if not (c.destination_window_id == 0)
    then explicit_destination m.state (visible_window m.state c.destination_window_id)
        c.target_pane_id c.direction
    else saved_or (saved_in m.state hint (visible_window m.state hint.origin_window_id))
        (fallback (frontend_window m c.frontend_id) (first_visible_window m.state))
