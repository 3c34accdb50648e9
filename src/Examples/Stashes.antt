-- ===== src/Examples/Stashes.antt =====
-- The theorem on stashing and restoring a window (stash.go), at the first of two windows.
use project_ariadne.Base.{
  ◌≡◌, refl, none, some, [], ◌∷◌, get, put, delete, any, values, without, contains, count, arith,
  nat_eq,
}
use project_ariadne.Model.Errors.{ok}
use project_ariadne.Model.Places.{Window, Workspace, StashedWindow}
use project_ariadne.State.Defs.{State, default_state}
use project_ariadne.Core.Events.{
  window_stashed, window_restored, window_stash_result, window_stash_event,
}
use project_ariadne.Core.Machine.{Machine, Outcome, map_frontends}
use project_ariadne.Core.WindowStash.{
  RestoreWindow, stash_window, restore_window, index_window_id, insert_window_id, restore_index,
  restore_workspace_id,
}
use project_ariadne.Core.WindowStash.Return.{ArePlaced, restore_window-stash_window}

abbrev main_window : Window
main_window = record { id = 1; workspace_id = 1; name = "main"; layout = none }

abbrev logs_window : Window
logs_window = record { id = 2; workspace_id = 1; name = "logs"; layout = none }

abbrev home : Workspace
home = record { id = 1; name = "default"; window_ids = 1 ∷ 2 ∷ [] }

abbrev before : State
before = record default_state {
  workspaces = (1, home) ∷ [];
  windows = (1, main_window) ∷ (2, logs_window) ∷ [];
}

abbrev start : Machine
start = record { state = before; frontends = [] }

abbrev hint : StashedWindow
hint = record { window_id = 1; origin_workspace_id = 1; original_window_index = 0 }

abbrev left : Workspace
left = record home { window_ids = 2 ∷ [] }

abbrev stashed : Machine
stashed = record {
  state = record before { workspaces = (1, left) ∷ []; stashed_windows = (1, hint) ∷ [] };
  frontends = [];
}

abbrev stash_outcome : Outcome
stash_outcome = (
  window_stash_result main_window left hint,
  some (record {
    revision = 0;
    kind = window_stashed;
    payload = window_stash_event main_window left hint;
  }),
)

stashes : stash_window 1 start ≡ (ok stash_outcome, stashed)
unfolding stash_window get any values index_window_id without put map_frontends default_state
stashes = refl

abbrev command : RestoreWindow
command = record { frontend_id = 0; window_id = 1; workspace_id = 0 }

abbrev restore_outcome : Outcome
restore_outcome = (
  window_stash_result main_window home hint,
  some (record {
    revision = 0;
    kind = window_restored;
    payload = window_stash_event main_window home hint;
  }),
)

restores : restore_window command stashed ≡ (ok restore_outcome, start)
unfolding restore_window get any restore_workspace_id restore_index insert_window_id put delete
    default_state
restores = refl

placed : ArePlaced before
unfolding get contains count default_state
placed = (
  (λ id w e. ground (arith, e)),
  λ id w e. (ground (arith, e), ground (arith, e), λ listed h. ground (arith, e, h)),
)

restore_window-stash_window_example :
    (get 1 start.state.workspaces ≡ get 1 before.workspaces)
    × (get 1 start.state.windows ≡ get 1 before.windows)
    × (get 1 start.state.stashed_windows ≡ get 1 before.stashed_windows)
restore_window-stash_window_example =
    restore_window-stash_window command start stashed start stash_outcome restore_outcome placed
      refl stashes restores 1
