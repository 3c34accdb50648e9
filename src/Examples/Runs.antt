-- ===== src/Examples/Runs.antt =====
-- Small runs of the model: the initial state through `ValidateSnapshot` (model.go), the weights of
-- `splitWeightsForInsertion`, and a subscriber that reads one event (core.go).
use project_ariadne.Base.{
  false, ◌≡◌, refl, true, [], ◌∷◌, none, sort, values, get, put, get_all, any, all, keys, contains,
  is_blank,
}
use project_ariadne.Layout.Weights.{
  max_uint32, can_double, normalize, halve_weight, spread, split_weights_for_insertion,
}
use project_ariadne.State.Defs.{default_window, default_state, allocate, allocate_workspace_id}
use project_ariadne.State.Snapshots.{Snapshot, default_snapshot}
use project_ariadne.State.Hierarchy.{max_key, max_split_id, max_stashed_split_id}
use project_ariadne.State.Restore.{validate_snapshot}
use project_ariadne.Core.Commands.{execute, changes_persistent_state, create_workspace_command}
use project_ariadne.Core.Workspaces.{create_workspace}
use project_ariadne.Core.Executor.{
  Core, default_config, publish, announce_event, handle_execute, handle_subscribe,
}
use project_ariadne.Core.Executor.Requests.{handle, run, subscribe_request, execute_request}

default_is_valid : validate_snapshot default_snapshot ≡ true
unfolding validate_snapshot default_snapshot sort values get any get_all put all keys contains
    max_key max_split_id max_stashed_split_id
default_is_valid = refl

doubled_shares : split_weights_for_insertion (3 ∷ 1 ∷ []) 1 ≡ 6 ∷ 1 ∷ 1 ∷ []
unfolding split_weights_for_insertion normalize can_double all spread
doubled_shares = refl

-- The heaviest weight becomes the lightest.
lost_share : split_weights_for_insertion (max_uint32 ∷ 8 ∷ []) 1 ≡ 2 ∷ 4 ∷ 4 ∷ []
unfolding split_weights_for_insertion normalize can_double halve_weight all spread
lost_share = refl

abbrev fresh_core : Core
fresh_core = record {
  config = default_config;
  machine = record { state = default_state; frontends = [] };
  queues = [];
  next_frontend_id = 1;
  finished = [];
}

abbrev after_one : Core
after_one =
    run (subscribe_request ∷ execute_request (create_workspace_command "work") none ∷ []) fresh_core

one_revision : after_one.machine.state.revision ≡ 1
unfolding run handle handle_execute handle_subscribe execute create_workspace allocate_workspace_id
    allocate changes_persistent_state default_state any get put values is_blank announce_event
    publish
one_revision = refl

-- A window that no workspace lists is refused.
abbrev unlisted : Snapshot
unlisted = record default_snapshot {
  next_window_id = 3;
  windows = default_window ∷ record { id = 2; workspace_id = 1; name = "logs"; layout = none } ∷ [];
}

unlisted_is_invalid : validate_snapshot unlisted ≡ false
unfolding validate_snapshot default_snapshot sort values get any get_all put all keys contains
    max_key max_split_id max_stashed_split_id
unlisted_is_invalid = refl
