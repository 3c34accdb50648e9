-- ===== src/Core/Panes.antt =====
-- operations.go and transient.go: making panes, closing them, resizing splits.
use project_ariadne.Base.{
  ℕ, Bool, true, false, not, ◌||◌, Option, none, some, List, [], ◌∷◌, ◌++◌, ◌==◌, nat_eq, string_eq,
  Dict, get, get_or, has, put, values, if◌then◌else◌, any, length, is_some, ltb,
}
use project_ariadne.Layout.Tree.{
  LayoutNode, pane, split, SplitDirection, valid_direction, pane_leaf, node_count,
}
use project_ariadne.Layout.Edit.{
  insert_split, insertion_requires_split, split_by_id, set_split_weights,
}
use project_ariadne.Layout.Hint.{empty_hint}
use project_ariadne.Model.Errors.{
  Result, ok, err, invalid_argument, invalid_state, not_found, already_exists,
}
use project_ariadne.Model.Terminal.{LaunchSpec}
use project_ariadne.Model.Tool.{ToolInstance, key_for_tool, tool_eq, valid_tool_instance}
use project_ariadne.Model.Pane.{
  Pane, PaneSpec, valid_pane, pane_from_spec, pane_terminal, terminal_id_of,
}
use project_ariadne.Model.Places.{Window, zero_window}
use project_ariadne.State.Defs.{State, allocate_pane_id, allocate_split_id}
use project_ariadne.Core.Events.{
  pane_created, pane_stashed, split_resized, pane_created_event, pane_stash_event, window_event,
  create_pane_result, resize_split_result,
}
use project_ariadne.Core.Terminals.{has_id, starting_terminal}
use project_ariadne.Core.Tools.{register_tool}
use project_ariadne.Core.Machine.{
  checked, Exec, Outcome, ◌>>=◌, ◌>>◌, raise, refuse_if, or_fail, current, store, allocating,
  announce,
}

-- `validatePaneSpec`: a terminal is shown by one pane only; a Tool may be shown by several, and then
-- its state must be the registered one.
abbrev shown_already : Dict ℕ Pane → Option ℕ → Bool
shown_already panes none = false
shown_already panes (some id) =
    any (λ (p : Pane). has_id id (terminal_id_of p.terminal)) (values panes)

abbrev differs : ToolInstance → Option ToolInstance → Bool
differs tool none = false
differs tool (some existing) =
    not (existing.state_version == tool.state_version) || not (existing.state == tool.state)

abbrev validate_tool : State → Option ToolInstance → Result (Unit {0})
validate_tool s none = ok tt
validate_tool s (some tool) =
    if not (valid_tool_instance tool)
    then err invalid_argument
    else (if differs tool (get (key_for_tool tool.descriptor) s.tool_instances)
        then err already_exists
        else ok tt)

unfoldable pub validate_pane_spec : State → PaneSpec → Result (Unit {0})
validate_pane_spec s spec =
    if not (valid_pane (pane_from_spec 0 0 spec))
    then err invalid_argument
    else (if shown_already s.panes (terminal_id_of spec.terminal)
        then err already_exists
        else validate_tool s spec.tool)

-- `splitIDForInsertion`: an ID is used up only if a new split is needed.
abbrev no_id : Exec ℕ
no_id m = (ok 0, m)

abbrev pub split_id_if : Bool × Bool → Exec ℕ
split_id_if (required, false) = raise invalid_state
split_id_if (true, true) = allocating allocate_split_id
split_id_if (false, true) = no_id

unfoldable pub split_id_for_insertion : LayoutNode → ℕ → SplitDirection → Exec ℕ
split_id_for_insertion layout target direction =
    split_id_if (insertion_requires_split target direction layout)

-- A new pane and its window, with the Tool registered.
unfoldable pub with_pane : State → Pane → Window → Option ToolInstance → State
with_pane s p window tool =
    let s' = register_tool tool s in
    record s' {
      windows = put window.id window s'.windows;
      panes = put p.id p s'.panes;
      pane_order = s'.pane_order ++ p.id ∷ [];
    }

unfoldable pub create_pane : ℕ → PaneSpec → Exec Outcome
create_pane window_id spec = do
  s ← current
  window ← or_fail (get window_id s.windows) not_found
  refuse_if (has window.id s.stashed_windows) invalid_state
  refuse_if (is_some window.layout) invalid_state
  checked (validate_pane_spec s spec)
  id ← allocating allocate_pane_id
  s' ← current
  let created = pane_from_spec id window.id spec
  let shown = record window { layout = some (pane_leaf id) }
  store (with_pane s' created shown spec.tool)
  announce (create_pane_result created shown) pane_created
      (pane_created_event created shown 0 "" spec.tool)

-- The window of a visible pane has a layout, or the source would dereference nil.
unfoldable pub split_pane : ℕ → SplitDirection → PaneSpec → Exec Outcome
split_pane target_pane_id direction spec = do
  s ← current
  target ← or_fail (get target_pane_id s.panes) not_found
  refuse_if (has target.id s.stashed_panes) invalid_state
  refuse_if (has target.window_id s.stashed_windows) invalid_state
  refuse_if (not (valid_direction direction)) invalid_argument
  checked (validate_pane_spec s spec)
  let window = get_or target.window_id zero_window s.windows
  layout ← or_fail window.layout invalid_state
  split_id ← split_id_for_insertion layout target.id direction
  id ← allocating allocate_pane_id
  wider ← or_fail (insert_split target.id id direction split_id layout) invalid_state
  s' ← current
  let created = pane_from_spec id window.id spec
  let shown = record window { layout = some wider }
  store (with_pane s' created shown spec.tool)
  announce (create_pane_result created shown) pane_created
      (pane_created_event created shown target.id direction spec.tool)

abbrev editor_spec : LaunchSpec → PaneSpec
editor_spec launch = record {
  kind = pane_terminal;
  title = "Plugin editor";
  presentation = "";
  terminal = some (starting_terminal launch);
  tool = none;
}

-- transient.go, `createTransientPane`: the pane is stashed from the start.
unfoldable pub create_transient_pane : ℕ → LaunchSpec → Exec Outcome
create_transient_pane window_id launch = do
  s ← current
  window ← or_fail (get window_id s.windows) not_found
  refuse_if (has window.id s.stashed_windows) invalid_state
  checked (validate_pane_spec s (editor_spec launch))
  id ← allocating allocate_pane_id
  s' ← current
  let created = record (pane_from_spec id window.id (editor_spec launch)) { transient = true }
  let hint = record empty_hint {
    pane_id = id;
    origin_workspace_id = window.workspace_id;
    origin_window_id = window.id;
  }
  store (record s' {
    panes = put id created s'.panes;
    pane_order = s'.pane_order ++ id ∷ [];
    stashed_panes = put id hint s'.stashed_panes;
  })
  announce (create_pane_result created window) pane_stashed (pane_stash_event created window hint)

-- `resizeSplit` looks through the windows in their order.
abbrev pub split_count : Option LayoutNode → ℕ
split_count none = 0
split_count (some (pane p)) = 0
split_count (some (split s d cs ws)) = node_count cs

unfoldable pub find_split : State → ℕ → List ℕ → Option (Window × LayoutNode)
find_split s split_id [] = none
find_split s split_id (id ∷ ids) =
    let window = get_or id zero_window s.windows in
    let rest = find_split s split_id ids in
    elim window.layout [
      | none ↦ rest
      | some layout ↦ elim (split_by_id split_id layout) [
        | none ↦ rest
        | some found ↦ some (window, layout)
      ]
    ]

abbrev split_of : ℕ → LayoutNode → Option LayoutNode
split_of split_id layout = split_by_id split_id layout

unfoldable pub resize_split : ℕ → List ℕ → Exec Outcome
resize_split split_id weights = do
  refuse_if (split_id == 0 || ltb (length weights) 2) invalid_argument
  refuse_if (any (λ w. w == 0) weights) invalid_argument
  s ← current
  found ← or_fail (find_split s split_id s.window_order) not_found
  let (window, layout) = found
  refuse_if (not (split_count (split_of split_id layout) == length weights)) invalid_argument
  resized ← or_fail (set_split_weights split_id weights layout) not_found
  let shown = record window { layout = some resized }
  store (record s { windows = put shown.id shown s.windows })
  announce (resize_split_result shown) split_resized (window_event shown)
