-- ===== src/Examples/Contents.antt =====
-- The theorems on labels, Tools and full queues at small states (operations.go and core.go).
use project_ariadne.Base.{
  is_blank, has_nul, ℕ, ◌≡◌, refl, List, [], ◌∷◌, none, some, get, put, delete, if◌then◌else◌, ◌==◌,
  nat_eq, string_eq, true,
}
use project_ariadne.Model.Errors.{ok, err, invalid_state}
use project_ariadne.Model.Label.{Label, label_workspace, key_for_label, label_key_eq, valid_label}
use project_ariadne.Model.Tool.{
  valid_identity, ToolDescriptor, ToolInstance, valid_tool_instance, valid_tool_descriptor,
}
use project_ariadne.Model.Json.{json_valid}
use project_ariadne.State.Defs.{default_state, label_target_exists}
use project_ariadne.Core.Events.{
  Event, workspace_created, workspace_created_event, label_result, tool_state_result, label_set,
  label_removed, tool_state_updated, tool_event, label_event,
}
use project_ariadne.Core.Machine.{Machine, Outcome}
use project_ariadne.Core.Labels.{set_label, remove_label}
use project_ariadne.Core.Labels.Setting.{remove_label-set_label}
use project_ariadne.Core.Tools.{update_tool_state}
use project_ariadne.Core.Tools.Generations.{update_tool_state-stale}
use project_ariadne.Core.Executor.{Core, default_config, announce_event}
use project_ariadne.Core.Executor.Overflow.{Told, announce_event-Told}
use project_ariadne.State.Defs.{default_workspace}

abbrev plain_machine : Machine
plain_machine = record { state = default_state; frontends = [] }

abbrev branch : Label
branch = record {
  target_kind = label_workspace;
  target_id = 1;
  source = "git";
  name = "branch";
  value = "main";
}

abbrev labelled : Machine
labelled = record {
  state = record default_state { labels = (key_for_label branch, branch) ∷ [] };
  frontends = [];
}

abbrev set_outcome : Outcome
set_outcome = (
  label_result branch true,
  some (record { revision = 0; kind = label_set; payload = label_event branch }),
)

sets : set_label branch plain_machine ≡ (ok set_outcome, labelled)
unfolding set_label label_target_exists default_state valid_label get put is_blank has_nul
sets = refl

abbrev remove_outcome : Outcome
remove_outcome = (
  label_result branch true,
  some (record { revision = 0; kind = label_removed; payload = label_event branch }),
)

removes :
    remove_label label_workspace 1 "git" "branch" labelled ≡ (ok remove_outcome, plain_machine)
unfolding remove_label default_state valid_label get delete is_blank has_nul
removes = refl

remove_label-set_label_example : get (key_for_label branch) plain_machine.state.labels ≡ (
    if key_for_label branch == key_for_label branch
    then none
    else get (key_for_label branch) plain_machine.state.labels)
remove_label-set_label_example =
    remove_label-set_label branch plain_machine labelled plain_machine set_outcome remove_outcome
      sets removes (key_for_label branch)

abbrev editor : ToolDescriptor
editor = record { provider = "p"; tool_type = "t"; instance_name = "i" }

abbrev editor_at : ℕ → ToolInstance
editor_at generation = record {
  descriptor = editor;
  state_version = 1;
  generation = generation;
  state = "{}";
}

abbrev tooled : ℕ → Machine
tooled generation = record {
  state = record default_state { tool_instances = (editor, editor_at generation) ∷ [] };
  frontends = [];
}

abbrev tool_outcome : Outcome
tool_outcome = (
  tool_state_result (editor_at 4),
  some (record { revision = 0; kind = tool_state_updated; payload = tool_event (editor_at 4) }),
)

updates : update_tool_state editor 3 1 "{}" (tooled 3) ≡ (ok tool_outcome, tooled 4)
unfolding update_tool_state default_state get put valid_tool_instance valid_tool_descriptor
    json_valid valid_identity is_blank has_nul
updates = refl

update_tool_state-stale_example :
    update_tool_state editor 3 2 "[]" (tooled 4) ≡ (err invalid_state, tooled 4)
update_tool_state-stale_example =
    update_tool_state-stale editor 3 1 2 "{}" "[]" (tooled 3) (tooled 4) tool_outcome updates

abbrev happened : Event
happened = record {
  revision = 3;
  kind = workspace_created;
  payload = workspace_created_event default_workspace;
}

abbrev two_queues : List (ℕ × List Event)
two_queues = (1, happened ∷ []) ∷ (2, []) ∷ []

-- The first queue is full.
abbrev crowded_core : Core
crowded_core = record {
  config = record default_config { event_queue_capacity = 1 };
  machine = plain_machine;
  queues = two_queues;
  next_frontend_id = 3;
  finished = [];
}

announce_event-Told_example :
    Told crowded_core plain_machine happened (announce_event crowded_core plain_machine happened)
announce_event-Told_example = announce_event-Told crowded_core plain_machine happened
