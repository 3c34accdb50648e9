-- ===== src/Examples/Subscribing.antt =====
-- A frontend that subscribes, and what waits for it (core.go).
use project_ariadne.Base.{
  ◌+◌, ◌≡◌, refl, List, [], ◌∷◌, none, some, get, get_or, put, any, values, length, nat_eq,
  is_blank, arith, ◌≤◌,
}
use project_ariadne.State.Defs.{default_state, max_uint64, allocate, allocate_workspace_id}
use project_ariadne.State.Snapshots.{Snapshot, snapshot}
use project_ariadne.Model.Errors.{ok}
use project_ariadne.Core.Events.{Event}
use project_ariadne.Core.Commands.{execute, changes_persistent_state, create_workspace_command}
use project_ariadne.Core.Workspaces.{create_workspace}
use project_ariadne.Core.Executor.{
  Core, default_config, new_core, publish, announce_event, handle_execute, handle_subscribe,
}
use project_ariadne.Core.Executor.Requests.{Request, handle, run, execute_request}
use project_ariadne.Core.Executor.Queues.{EndsAt}
use project_ariadne.Core.Executor.Subscriptions.{subscription_misses_nothing}

abbrev quiet_core : Core
quiet_core = record {
  config = default_config;
  machine = record { state = default_state; frontends = [] };
  queues = [];
  next_frontend_id = 1;
  finished = [];
}

abbrev earlier : List Request
earlier = execute_request (create_workspace_command "work") none ∷ []

abbrev further : List Request
further =
    execute_request (create_workspace_command "play") none
    ∷ execute_request (create_workspace_command "play") none
    ∷ []

abbrev joined : Core
joined = (handle_subscribe (run earlier quiet_core)).1

abbrev seen : Snapshot
seen = snapshot (run earlier quiet_core).machine.state

abbrev waiting : List Event
waiting = get_or 1 [] (run further joined).queues

begins : new_core default_config default_state ≡ ok quiet_core
unfolding new_core
begins = refl

starts_low : default_state.revision ≤ max_uint64
unfolding default_state
starts_low = omega arith

answers : handle_subscribe (run earlier quiet_core) ≡ (ok (seen, 1), joined)
unfolding run handle handle_execute handle_subscribe execute create_workspace allocate_workspace_id
    allocate changes_persistent_state default_state any get put values is_blank announce_event
    publish
answers = refl

waits : get 1 (run further joined).queues ≡ some waiting
unfolding run handle handle_execute handle_subscribe execute create_workspace allocate_workspace_id
    allocate changes_persistent_state default_state any get put values is_blank announce_event
    publish
waits = refl

one_waits : length waiting ≡ 1
unfolding run handle handle_execute handle_subscribe execute create_workspace allocate_workspace_id
    allocate changes_persistent_state default_state any get put values is_blank announce_event
    publish
one_waits = refl

subscription_misses_nothing_example :
    EndsAt (run further joined).machine.state.revision waiting
    × (seen.revision + length waiting ≡ (run further joined).machine.state.revision)
subscription_misses_nothing_example =
    subscription_misses_nothing default_config default_state quiet_core joined earlier further seen
      1 waiting begins starts_low answers (refl, (refl, tt)) waits
