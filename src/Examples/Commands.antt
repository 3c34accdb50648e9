-- ===== src/Examples/Commands.antt =====
-- The theorems on commands (operations.go) and the executor (core.go) at small states.
use project_ariadne.Base.{
  ℕ, ◌≡◌, ◌≤◌, refl, true, false, List, [], ◌∷◌, Option, none, some, length, values, get, put, sort,
  any, all, keys, contains, get_all, nat_eq, has_nul, string_eq, has_nul, arith,
}
use project_ariadne.Model.Errors.{CoreError, ok, err, not_found}
use project_ariadne.Model.Terminal.{starting, valid_terminal, valid_launch}
use project_ariadne.Model.Pane.{Pane, valid_pane, valid_pane_presentation, pane_terminal}
use project_ariadne.Model.Attention.{Attention}
use project_ariadne.State.Defs.{State, default_state, max_uint64}
use project_ariadne.State.Snapshots.{Snapshot, snapshot}
use project_ariadne.State.Hierarchy.{max_key, max_split_id, max_stashed_split_id}
use project_ariadne.State.Restore.{clone_state}
use project_ariadne.Core.Machine.{Machine}
use project_ariadne.Core.Attentions.{select_evicted, evict_attentions}
use project_ariadne.Core.Attentions.Eviction.{Chosen, evict_attentions-bound, select_evicted_lem}
use project_ariadne.Core.Workspaces.{delete_workspace}
use project_ariadne.Core.Commands.{
  Command, execute, changes_persistent_state, create_workspace_command, delete_workspace_command,
  activate_terminal_command,
}
use project_ariadne.Core.Commands.Frame.{IsFramed}
use project_ariadne.Core.Commands.Frame.Execution.{execute-Framed}
use project_ariadne.Core.Commands.Lifecycle.{
  AreKeyed, Moved, PanesAreValid, terminal_commands_move, terminal_commands_keep_panes_valid,
}
use project_ariadne.Core.Terminals.Steps.{at_pane}
use project_ariadne.Core.Terminals.Life.{activate}
use project_ariadne.Core.Executor.{Core, Config, default_config, new_core, handle_execute}
use project_ariadne.Core.Executor.Atomic.{
  OnlyCountersOf, refused_command_changes_nothing, refused_command_announces_nothing,
}
use project_ariadne.Core.Executor.Answers.{Answered, handle_execute-Answered}
use project_ariadne.Core.Executor.Requests.{
  Request, execute_request, subscribe_request, receive_request, run,
}
use project_ariadne.Core.Executor.Queues.{IsSynced, queues_miss_nothing}

abbrev first_machine : Machine
first_machine = record { state = default_state; frontends = [] }

abbrev accepting : Snapshot → Option CoreError
accepting snap = none

abbrev core_over : Config → Core
core_over config = record {
  config = config;
  machine = first_machine;
  queues = [];
  next_frontend_id = 1;
  finished = [];
}

abbrev validating : Config
validating = record default_config { snapshot_validator = some accepting }

-- The ninth workspace does not exist.
abbrev failing : Command
failing = delete_workspace_command 9

fails_validated : (handle_execute failing none (core_over validating)).0 ≡ err not_found
unfolding handle_execute execute delete_workspace changes_persistent_state clone_state snapshot
    default_state sort values get any get_all put all keys contains max_key max_split_id
    max_stashed_split_id
fails_validated = refl

is_persistent : changes_persistent_state failing ≡ true
unfolding changes_persistent_state
is_persistent = refl

refused_command_changes_nothing_example :
    (handle_execute failing none (core_over validating)).1 ≡ core_over validating
refused_command_changes_nothing_example =
    refused_command_changes_nothing (core_over validating) failing none accepting not_found refl
      is_persistent fails_validated

fails_unvalidated : (handle_execute failing none (core_over default_config)).0 ≡ err not_found
unfolding handle_execute execute delete_workspace changes_persistent_state default_state get
fails_unvalidated = refl

refused_command_announces_nothing_example :
    OnlyCountersOf
      (core_over default_config)
      (handle_execute failing none (core_over default_config)).1
refused_command_announces_nothing_example =
    refused_command_announces_nothing (core_over default_config) failing none not_found
      fails_unvalidated

execute-Framed_example :
    IsFramed first_machine (execute 1024 (create_workspace_command "work") first_machine)
execute-Framed_example = execute-Framed 1024 (create_workspace_command "work") first_machine

handle_execute-Answered_example :
    Answered
      (core_over validating)
      (create_workspace_command "work")
      (handle_execute (create_workspace_command "work") none (core_over validating))
handle_execute-Answered_example =
    handle_execute-Answered (core_over validating) (create_workspace_command "work") none

starts : new_core default_config default_state ≡ ok (core_over default_config)
unfolding new_core
starts = refl

low_revision : default_state.revision ≤ max_uint64
unfolding default_state
low_revision = omega arith

abbrev requests : List Request
requests =
    subscribe_request
    ∷ execute_request (create_workspace_command "work") none
    ∷ receive_request 1
    ∷ execute_request (create_workspace_command "play") none
    ∷ []

queues_miss_nothing_example : IsSynced (run requests (core_over default_config))
queues_miss_nothing_example =
    queues_miss_nothing default_config default_state (core_over default_config) requests starts
      low_revision

-- A pane whose terminal starts.
abbrev starting_pane : Pane
starting_pane = record {
  transient = false;
  id = 1;
  window_id = 1;
  kind = pane_terminal;
  title = "shell";
  presentation = "";
  terminal = some (record {
    id = none;
    state = starting;
    launch = record { argv = "sh" ∷ []; cwd = "/" };
    exit = none;
    history_available = false;
  });
  tool = none;
}

abbrev starting_machine : Machine
starting_machine = record {
  state = record default_state { panes = (1, starting_pane) ∷ [] };
  frontends = [];
}

all_valid : PanesAreValid starting_machine.state
unfolding values valid_pane valid_pane_presentation valid_terminal valid_launch any has_nul
all_valid = (refl, tt)

all_keyed : AreKeyed starting_machine.state
unfolding get
all_keyed = ((refl, refl), tt)

terminal_commands_move_example :
    Moved
      (at_pane 1)
      (activate 7)
      starting_machine.state
      (execute 1024 (activate_terminal_command 1 7) starting_machine).0
      (execute 1024 (activate_terminal_command 1 7) starting_machine).1.state
terminal_commands_move_example =
    terminal_commands_move 1024 (activate_terminal_command 1 7) (at_pane 1) (activate 7)
      starting_machine refl all_keyed

terminal_commands_keep_panes_valid_example :
    PanesAreValid (execute 1024 (activate_terminal_command 1 7) starting_machine).1.state
terminal_commands_keep_panes_valid_example =
    terminal_commands_keep_panes_valid 1024 (activate_terminal_command 1 7) starting_machine refl
      all_valid

abbrev attention_at : ℕ → ℕ → Option ℕ → Attention
attention_at id updated acknowledged = record {
  id = id;
  pane_id = 1;
  source = "core";
  key = "k";
  class = "notice";
  severity = "info";
  message = "m";
  occurred_at = 1;
  updated_at = updated;
  acknowledged_at = acknowledged;
}

abbrev entries : List Attention
entries = attention_at 1 5 none ∷ attention_at 2 9 (some 9) ∷ attention_at 3 4 none ∷ []

abbrev crowded : State
crowded = record default_state {
  attentions =
      (1, attention_at 1 5 none) ∷ (2, attention_at 2 9 (some 9)) ∷ (3, attention_at 3 4 none) ∷ [];
}

evict_attentions-bound_example : length (evict_attentions 2 crowded).0.attentions ≤ 2
evict_attentions-bound_example = evict_attentions-bound 2 crowded (refl, (refl, (refl, tt)))

select_evicted_lem_example : Chosen entries (select_evicted none entries)
select_evicted_lem_example = select_evicted_lem entries

copied : clone_state default_state ≡ some default_state
unfolding clone_state snapshot default_state sort values get any get_all put all keys contains
    max_key max_split_id max_stashed_split_id
copied = refl
