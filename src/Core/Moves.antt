-- ===== src/Core/Moves.antt =====
-- operations.go, `movePane`.
use project_ariadne.Base.{
  ℕ, Bool, false, not, ◌&&◌, ◌||◌, Option, none, some, ◌==◌, nat_eq, string_eq, get, get_or, has,
  put, if◌then◌else◌, is_some,
}
use project_ariadne.Layout.Tree.{LayoutNode, SplitDirection, valid_direction, pane_leaf}
use project_ariadne.Layout.Edit.{insert_split}
use project_ariadne.Model.Errors.{Result, ok, err, invalid_argument, invalid_state, not_found}
use project_ariadne.Model.Pane.{Pane}
use project_ariadne.Model.Places.{Window, FrontendState, zero_window}
use project_ariadne.State.Defs.{State}
use project_ariadne.Core.Events.{pane_moved, pane_moved_event, move_pane_result}
use project_ariadne.Core.Panes.{split_id_for_insertion}
use project_ariadne.Core.Closing.{without_pane}
use project_ariadne.Core.Machine.{
  checked, Exec, Outcome, ◌>>=◌, ◌>>◌, refuse_if, or_fail, current, returning, store, announce,
  refocus,
}

-- The placement fits the destination: none in an empty window, else a direction and a target in it.
abbrev in_window : ℕ → Option Pane → Bool
in_window window_id none = false
in_window window_id (some p) = p.window_id == window_id

unfoldable pub check_placement : State → Window → ℕ → SplitDirection → Result (Unit {0})
check_placement s destination target direction = elim destination.layout [
  | none ↦ if not (target == 0) || not (direction == "") then err invalid_argument else ok tt
  | some layout ↦
      if target == 0 || not (valid_direction direction)
      then err invalid_argument
      else (if in_window destination.id (get target s.panes) then ok tt else err not_found)
]

-- Removal and insertion in one window.
abbrev still_shown : Option LayoutNode → Result LayoutNode
still_shown none = err invalid_state
still_shown (some layout) = ok layout

abbrev remaining : Result (Option LayoutNode) → Result LayoutNode
remaining (err e) = err e
remaining (ok layout) = still_shown layout

announce_move : Pane → Window → Window → ℕ → SplitDirection → Exec Outcome
announce_move p source destination target direction =
    announce (move_pane_result p source destination) pane_moved
      (pane_moved_event p source destination target direction)

unfoldable pub move_within : Pane → Window → ℕ → SplitDirection → Exec Outcome
unfolding announce_move
move_within p source target direction = do
  layout ← checked (remaining (without_pane p.id source.layout))
  split_id ← split_id_for_insertion layout target direction
  placed ← or_fail (insert_split target p.id direction split_id layout) invalid_state
  s ← current
  let shown = record source { layout = some placed }
  store (record s { windows = put shown.id shown s.windows })
  announce_move p shown shown target direction

-- The layout of the destination with the pane in it.
abbrev placed_in : Pane → ℕ → SplitDirection → Option LayoutNode → Exec LayoutNode
placed_in p target direction none m = (ok (pane_leaf p.id), m)
placed_in p target direction (some layout) m =
    (do
      split_id ← split_id_for_insertion layout target direction
      or_fail (insert_split target p.id direction split_id layout) invalid_state)
      m

abbrev follow : Pane → Window → FrontendState → FrontendState
follow p destination f =
    if f.pane_id == p.id
    then record f { workspace_id = destination.workspace_id; window_id = destination.id }
    else f

-- Writing the destination last matters where it is the source.
unfoldable pub move_across : Pane → Window → Window → ℕ → SplitDirection → Exec Outcome
unfolding announce_move
move_across p source destination target direction = do
  left ← checked (without_pane p.id source.layout)
  layout ← placed_in p target direction destination.layout
  s ← current
  let source' = record source { layout = left }
  let destination' = record destination { layout = some layout }
  let moved = record p { window_id = destination.id }
  store (record s {
    windows = put destination'.id destination' (put source'.id source' s.windows);
    panes = put moved.id moved s.panes;
  })
  refocus (follow p destination)
  announce_move moved source' destination' target direction

-- The checks: the pane, its window and the destination.
unfoldable pub move_checks : ℕ → ℕ → ℕ → SplitDirection → Exec (Pane × Window × Window)
move_checks pane_id destination_id target direction = do
  s ← current
  p ← or_fail (get pane_id s.panes) not_found
  refuse_if (has p.id s.stashed_panes) invalid_state
  refuse_if (has p.window_id s.stashed_windows) invalid_state
  destination ← or_fail (get destination_id s.windows) not_found
  refuse_if (has destination.id s.stashed_windows) invalid_state
  refuse_if (target == p.id) invalid_argument
  checked (check_placement s destination target direction)
  returning (p, get_or p.window_id zero_window s.windows, destination)

abbrev pub move_checked : ℕ → SplitDirection → Pane × Window × Window → Exec Outcome
move_checked target direction (p, source, destination) =
    if source.id == destination.id && is_some destination.layout
    then move_within p source target direction
    else move_across p source destination target direction

unfoldable pub move_pane : ℕ → ℕ → ℕ → SplitDirection → Exec Outcome
move_pane pane_id destination_id target direction =
    move_checks pane_id destination_id target direction >>= move_checked target direction
