-- ===== src/Core/Tools.antt =====
-- operations.go: the state of Tools.
pub mod Generations
use project_ariadne.Base.{
  ℕ, ◌+◌, ◌%◌, ◌^◌, String, not, ◌||◌, Option, none, some, ◌==◌, nat_eq, string_eq, get, has, put,
  if◌then◌else◌,
}
use project_ariadne.Model.Errors.{invalid_argument, invalid_state, not_found}
use project_ariadne.Model.Tool.{
  ToolDescriptor, ToolInstance, key_for_tool, tool_eq, valid_tool_instance,
}
use project_ariadne.State.Defs.{State}
use project_ariadne.Core.Events.{tool_state_updated, tool_event, tool_state_result}
use project_ariadne.Core.Machine.{
  Exec, Outcome, ◌>>=◌, ◌>>◌, refuse_if, or_fail, current, store, announce,
}

-- The generation is a uint64: it wraps to 0, which is refused.
abbrev pub next_tool : ToolDescriptor → ℕ → ℕ → String → ToolInstance
next_tool descriptor generation state_version state = record {
  descriptor = descriptor;
  state_version = state_version;
  generation = (generation + 1) % 2 ^ 64;
  state = state;
}

unfoldable pub update_tool_state : ToolDescriptor → ℕ → ℕ → String → Exec Outcome
update_tool_state descriptor expected_generation state_version state = do
  s ← current
  tool ← or_fail (get (key_for_tool descriptor) s.tool_instances) not_found
  refuse_if (not (expected_generation == tool.generation)) invalid_state
  let next = next_tool descriptor tool.generation state_version state
  refuse_if (next.generation == 0 || not (valid_tool_instance next)) invalid_argument
  store (record s { tool_instances = put (key_for_tool descriptor) next s.tool_instances })
  announce (tool_state_result next) tool_state_updated (tool_event next)

-- `registerTool`: an instance that is there already stays as it is.
unfoldable pub register_tool : Option ToolInstance → State → State
register_tool none s = s
register_tool (some tool) s =
    if has (key_for_tool tool.descriptor) s.tool_instances
    then s
    else record s { tool_instances = put (key_for_tool tool.descriptor) tool s.tool_instances }
