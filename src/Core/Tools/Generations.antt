-- ===== src/Core/Tools/Generations.antt =====
-- operations.go, `updateToolState`: of two writers that read the same generation only one succeeds.
use project_ariadne.Base.{
  ℕ, String, ◌+◌, ◌%◌, ◌^◌, ◌≡◌, ◌≢◌, refl, Option, none, some, get, get-put, beq_self, nat_eq,
  arith,
}
use project_ariadne.Model.Errors.{ok, err, invalid_state}
use project_ariadne.Model.Tool.{ToolDescriptor, ToolInstance, key_for_tool, tool_eq}
use project_ariadne.Core.Machine.{Machine, Outcome}
use project_ariadne.Core.Tools.{update_tool_state, next_tool}

next_generation_differs : (g : ℕ) → (g + 1) % 2 ^ 64 ≢ g
next_generation_differs g e = omega (arith, e)

stale_at :
    (descriptor : ToolDescriptor) (g v v' : ℕ) (state state' : String) (m m' : Machine)
    (outcome : Outcome) (found : Option ToolInstance)
    → get (key_for_tool descriptor) m.state.tool_instances ≡ found
    → update_tool_state descriptor g v state m ≡ (ok outcome, m')
    → update_tool_state descriptor g v' state' m' ≡ (err invalid_state, m')
unfolding update_tool_state
stale_at descriptor g v v' state state' m m' outcome none h e = ground (arith, h, e)
stale_at descriptor g v v' state state' m m' outcome (some t) h e =
    let key = key_for_tool descriptor in
    ground (
      arith,
      h,
      e,
      get-put key key (next_tool descriptor t.generation v state) m.state.tool_instances,
      beq_self key,
      next_generation_differs t.generation,
    )

-- After an update of a Tool's state that expected a generation, every update that expects the same
-- generation, whatever it writes, is refused with ErrInvalidState and changes nothing.
pub update_tool_state-stale :
    (descriptor : ToolDescriptor) (generation version version' : ℕ) (state state' : String)
    (m m' : Machine) (outcome : Outcome)
    → update_tool_state descriptor generation version state m ≡ (ok outcome, m')
    → update_tool_state descriptor generation version' state' m' ≡ (err invalid_state, m')
unfolding update_tool_state
update_tool_state-stale descriptor g v v' state state' m m' outcome e =
    stale_at descriptor g v v' state state' m m' outcome
      (get (key_for_tool descriptor) m.state.tool_instances) refl e
