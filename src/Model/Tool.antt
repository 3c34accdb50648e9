-- ===== src/Model/Tool.antt =====
-- model.go: Tool descriptors and instances.
use Prim.Native.String.{len}
use project_ariadne.Base.{
  ℕ, ◌≡◌, ◌↔◌, String, Bool, true, not, ◌&&◌, ◌||◌, [], ◌∷◌, ◌==◌, Eq, nat_eq, string_eq, ltb, leb,
  all, is_blank, has_nul, arith, eq_iff,
}
use project_ariadne.Model.Json.{json_valid}

pub record ToolDescriptor : Type 0 where
  pub provider : String
  pub tool_type : String
  pub instance_name : String

-- `state` is raw JSON; `state_version` is a uint32, `generation` a uint64.
pub record ToolInstance : Type 0 where
  pub descriptor : ToolDescriptor
  pub state_version : ℕ
  pub generation : ℕ
  pub state : String

-- The map key has the same three parts as the descriptor, so the descriptor serves as its own key.
abbrev pub key_for_tool : ToolDescriptor → ToolDescriptor
key_for_tool descriptor = descriptor

abbrev pub same_tool : ToolDescriptor → ToolDescriptor → Bool
same_tool a b =
    a.provider == b.provider && a.tool_type == b.tool_type && a.instance_name == b.instance_name

pub same_tool_iff : (a b : ToolDescriptor) → (same_tool a b ≡ true) ↔ (a ≡ b)
same_tool_iff a b = ground (
  arith,
  eq_iff a.provider b.provider,
  eq_iff a.tool_type b.tool_type,
  eq_iff a.instance_name b.instance_name,
)

instance abbrev pub tool_eq : Eq ToolDescriptor
tool_eq = record { same = same_tool; beq_iff = same_tool_iff }

abbrev pub max_identity_bytes : ℕ
max_identity_bytes = 128

abbrev pub max_tool_state_bytes : ℕ
max_tool_state_bytes = 65536

-- An identity is not blank, has at most 128 bytes and no NUL.
unfoldable pub valid_identity : String → Bool
valid_identity text = not (is_blank text || ltb max_identity_bytes (len text) || has_nul text)

unfoldable pub valid_tool_descriptor : ToolDescriptor → Bool
unfolding all
valid_tool_descriptor descriptor =
    all valid_identity (descriptor.provider ∷ descriptor.tool_type ∷ descriptor.instance_name ∷ [])

-- What `json.Valid` accepts, the decoder that `validToolInstance` then runs accepts too.
unfoldable pub valid_tool_instance : ToolInstance → Bool
valid_tool_instance tool =
    valid_tool_descriptor tool.descriptor
    && not (tool.state_version == 0)
    && not (tool.generation == 0)
    && leb (len tool.state) max_tool_state_bytes
    && json_valid tool.state

-- What a read of a missing key gives.
abbrev pub zero_tool : ToolInstance
zero_tool = record {
  descriptor = record { provider = ""; tool_type = ""; instance_name = "" };
  state_version = 0;
  generation = 0;
  state = "";
}
