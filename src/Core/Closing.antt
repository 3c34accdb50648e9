-- ===== src/Core/Closing.antt =====
-- operations.go: taking a pane out of its window, and `closePane`.
use project_ariadne.Base.{
  ℕ, Bool, true, false, Option, none, some, List, ◌==◌, nat_eq, string_eq, get, get_or, has, put,
  delete, values, if◌then◌else◌, any, without, select,
}
use project_ariadne.Layout.Tree.{LayoutNode}
use project_ariadne.Layout.Edit.{remove_pane_from_layout}
use project_ariadne.Model.Errors.{Result, ok, err, invalid_state, not_found}
use project_ariadne.Model.Tool.{ToolDescriptor, ToolInstance, key_for_tool, tool_eq, zero_tool}
use project_ariadne.Model.Pane.{Pane}
use project_ariadne.Model.Label.{Label, label_pane}
use project_ariadne.Model.Attention.{Attention}
use project_ariadne.Model.Places.{Window, FrontendState, zero_window}
use project_ariadne.State.Defs.{State}
use project_ariadne.Core.Events.{pane_closed, pane_closed_event, close_pane_result}
use project_ariadne.Core.Labels.{labels_without, of_target}
use project_ariadne.Core.Attentions.{removed_attentions, without_attentions}
use project_ariadne.Core.Machine.{
  checked, Exec, Outcome, ◌>>=◌, ◌>>◌, or_fail, current, store, announce, refocus, first_pane_of,
}

-- What is left of a window's layout without a pane; an error if the layout does not show it. A
-- visible pane's window has a layout, or the source would dereference nil.
abbrev pub taken_out : Option LayoutNode × Bool → Result (Option LayoutNode)
taken_out (layout, true) = ok layout
taken_out (layout, false) = err invalid_state

abbrev pub without_pane : ℕ → Option LayoutNode → Result (Option LayoutNode)
without_pane id none = err invalid_state
without_pane id (some layout) = taken_out (remove_pane_from_layout id layout)

-- The first step of `closePane`: the pane leaves the stash or the layout of its window.
unfoldable pub unplace : State → Pane → Window → Result (State × Window)
unplace s p window =
    if has p.id s.stashed_panes
    then ok (record s { stashed_panes = delete p.id s.stashed_panes }, window)
    else elim (without_pane p.id window.layout) [
      | err e ↦ err e
      | ok layout ↦
          let left = record window { layout = layout } in
          ok (record s { windows = put left.id left s.windows }, left)
    ]

-- A Tool goes with the last pane that shows it.
abbrev shows : ToolDescriptor → Option ToolDescriptor → Bool
shows descriptor none = false
shows descriptor (some other) = other == descriptor

abbrev release_unused : State → ToolDescriptor → Bool → State × Option ToolInstance
release_unused s descriptor true = (s, none)
release_unused s descriptor false = (
  record s { tool_instances = delete (key_for_tool descriptor) s.tool_instances },
  some (get_or (key_for_tool descriptor) zero_tool s.tool_instances),
)

unfoldable pub release_tool : State → Option ToolDescriptor → State × Option ToolInstance
release_tool s none = (s, none)
release_tool s (some descriptor) =
    release_unused s descriptor (any (λ (p : Pane). shows descriptor p.tool) (values s.panes))

-- A frontend that looked at a pane which is gone looks at its window's first pane.
abbrev pub look_away : ℕ → Window → FrontendState → FrontendState
look_away pane_id window f =
    if f.pane_id == pane_id then record f { pane_id = first_pane_of window.layout } else f

abbrev pub on_pane : ℕ → Attention → Bool
on_pane id a = a.pane_id == id

-- The state without a pane that is no longer placed, and what went with it. The source lists the
-- removed labels in the order of its map, which is open.
pub record Dismantled : Type 0 where
  pub state : State
  pub labels : List Label
  pub tool : Option ToolInstance
  pub attentions : List Attention

abbrev pub forget_pane : State → ℕ → State
forget_pane s id = record s {
  panes = delete id s.panes;
  labels = labels_without (of_target label_pane id) s.labels;
}

abbrev in_order : ℕ → List Label → List Attention → State × Option ToolInstance → Dismantled
in_order id labels attentions (s, tool) = record {
  state = record s { pane_order = without id s.pane_order };
  labels = labels;
  tool = tool;
  attentions = attentions;
}

unfoldable pub dismantle : State → Pane → Dismantled
unfolding release_tool
dismantle s p =
    let cleared = removed_attentions (on_pane p.id) s in
    in_order p.id (select (of_target label_pane p.id) (values s.labels)) cleared
      (release_tool (without_attentions cleared (forget_pane s p.id)) p.tool)

-- `closePane` after the pane has left the stash or the layout.
unfoldable pub close_unplaced : Pane → State × Window → Exec Outcome
close_unplaced p (s, window) = do
  let gone = dismantle s p
  store gone.state
  refocus (look_away p.id window)
  announce (close_pane_result p window) pane_closed
      (pane_closed_event p window gone.labels gone.tool gone.attentions)

unfoldable pub close_pane : ℕ → Exec Outcome
close_pane pane_id = do
  s ← current
  p ← or_fail (get pane_id s.panes) not_found
  placed ← checked (unplace s p (get_or p.window_id zero_window s.windows))
  close_unplaced p placed
