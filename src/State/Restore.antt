-- ===== src/State/Restore.antt =====
-- model.go, `stateFromSnapshot`: one function for each of its loops. Every error wraps
-- ErrInvalidState: `none`.
pub mod Counters
pub mod Listed
pub mod Unlisted
use project_ariadne.Base.{
  ◌%◌, ◌^◌, ◌+◌, ℕ, suc, ◌+◌, String, Bool, true, false, not, ◌&&◌, ◌||◌, Option, none, some, List,
  [], ◌∷◌, ◌++◌, ◌==◌, nat_eq, string_eq, Dict, get, has, put, keys, values, if◌then◌else◌, ltb,
  leb, all, any, contains, is_some, ◌>>=?◌,
}
use project_ariadne.Layout.Tree.{valid_direction}
use project_ariadne.Layout.Hint.{StashedPane}
use project_ariadne.Model.Tool.{
  ToolDescriptor, ToolInstance, valid_tool_instance, tool_eq, key_for_tool,
}
use project_ariadne.Model.Pane.{Pane, valid_pane, terminal_id_of}
use project_ariadne.Model.Label.{Label, valid_label, key_for_label, label_key_eq}
use project_ariadne.Model.Attention.{
  Attention, valid_attention, key_for_attention, attention_key_eq,
}
use project_ariadne.Model.Places.{Workspace, Window, StashedWindow}
use project_ariadne.State.Defs.{State, label_target_exists}
use project_ariadne.State.Snapshots.{Snapshot, snapshot}
use project_ariadne.State.Hierarchy.{
  validate_hierarchy, max_key, max_split_id, max_stashed_split_id, passed,
}

-- The maps are empty at first, and so are the order lists.
abbrev empty_from : Snapshot → State
empty_from snap = record {
  revision = snap.revision;
  next_workspace_id = snap.next_workspace_id;
  next_window_id = snap.next_window_id;
  next_pane_id = snap.next_pane_id;
  next_split_id = snap.next_split_id;
  workspaces = [];
  windows = [];
  panes = [];
  stashed_panes = [];
  stashed_windows = [];
  labels = [];
  tool_instances = [];
  attentions = [];
  attention_keys = [];
  next_attention_id = 1;
  workspace_order = [];
  window_order = [];
  pane_order = [];
}

-- A step is refused if its test holds.
abbrev refuse_if : Bool → State → Option State
refuse_if true s = none
refuse_if false s = some s

add_tool : ToolInstance → State → Option State
add_tool tool s =
    refuse_if
      (not (valid_tool_instance tool) || has (key_for_tool tool.descriptor) s.tool_instances)
      (record s { tool_instances = put (key_for_tool tool.descriptor) tool s.tool_instances })

add_workspace : Workspace → State → Option State
add_workspace w s =
    refuse_if
      (w.id == 0
        || w.name == ""
        || has w.id s.workspaces
        || any (λ (other : Workspace). other.name == w.name) (values s.workspaces))
      (record s {
        workspaces = put w.id w s.workspaces;
        workspace_order = s.workspace_order ++ w.id ∷ [];
      })

add_stashed_window : StashedWindow → State → Option State
add_stashed_window w s =
    refuse_if (w.window_id == 0 || w.origin_workspace_id == 0 || has w.window_id s.stashed_windows)
      (record s { stashed_windows = put w.window_id w s.stashed_windows })

-- Without a target the hint is empty, and with one it is complete.
unfoldable pub bad_stashed_pane : StashedPane → Bool
bad_stashed_pane p =
    p.pane_id == 0
    || p.target_pane_id == p.pane_id
    || p.origin_workspace_id == 0
    || p.origin_window_id == 0
    || p.target_pane_id == 0
      && (not (p.direction == "")
          || p.before
          || not (p.weight == 0)
          || not (p.target_weight == 0)
          || not (p.original_split_id == 0))
    || not (p.target_pane_id == 0)
      && (not (valid_direction p.direction)
          || p.weight == 0
          || p.target_weight == 0
          || p.original_split_id == 0)

add_stashed_pane : StashedPane → State → Option State
unfolding bad_stashed_pane
add_stashed_pane p s =
    refuse_if (bad_stashed_pane p || has p.pane_id s.stashed_panes)
      (record s { stashed_panes = put p.pane_id p s.stashed_panes })

add_window : Window → State → Option State
add_window w s =
    refuse_if
      (w.id == 0
        || w.name == ""
        || has w.id s.windows
        || not (has w.workspace_id s.workspaces) && not (has w.id s.stashed_windows)
        || any (λ (other : Window). other.workspace_id == w.workspace_id && other.name == w.name)
            (values s.windows))
      (record s { windows = put w.id w s.windows; window_order = s.window_order ++ w.id ∷ [] })

-- `terminals` holds the terminal IDs seen.
abbrev repeats : List ℕ → Option ℕ → Bool
repeats terminals none = false
repeats terminals (some id) = contains id terminals

abbrev noting : List ℕ → Option ℕ → List ℕ
noting terminals none = terminals
noting terminals (some id) = id ∷ terminals

add_pane : Pane → State × List ℕ → Option (State × List ℕ)
add_pane p (s, terminals) =
    let s' = record s { panes = put p.id p s.panes; pane_order = s.pane_order ++ p.id ∷ [] } in
    refuse_if
      (p.id == 0
        || not (valid_pane p)
        || has p.id s.panes
        || not (has p.window_id s.windows) && not (has p.id s.stashed_panes)
        || repeats terminals (terminal_id_of p.terminal))
      s'
    >>=? λ added. some (added, noting terminals (terminal_id_of p.terminal))

add_label : Label → State → Option State
add_label l s =
    refuse_if
      (not (valid_label l)
        || not (label_target_exists s l.target_kind l.target_id)
        || has (key_for_label l) s.labels)
      (record s { labels = put (key_for_label l) l s.labels })

add_attention : Attention → State → Option State
add_attention a s =
    refuse_if
      (not (valid_attention a)
        || not (has a.pane_id s.panes)
        || has (key_for_attention a) s.attention_keys
        || has a.id s.attentions)
      (record s {
        attentions = put a.id a s.attentions;
        attention_keys = put (key_for_attention a) a.id s.attention_keys;
        next_attention_id =
            if leb s.next_attention_id a.id then (a.id + 1) % 2 ^ 64 else s.next_attention_id;
      })

unfoldable pub add_all : {A S : Type 0} → (A → S → Option S) → List A → S → Option S
add_all add [] s = some s
add_all add (a ∷ as') s = add a s >>=? add_all add as'

abbrev tool_known : State → Option ToolDescriptor → Bool
tool_known s none = true
tool_known s (some descriptor) = has (key_for_tool descriptor) s.tool_instances

-- The three loops over the finished maps.
unfoldable pub references_hold : State → Bool
references_hold s =
    all (λ (p : Pane). tool_known s p.tool) (values s.panes)
    && all (λ id. has id s.panes) (keys s.stashed_panes)
    && all (λ id. has id s.windows) (keys s.stashed_windows)

unfoldable pub counters_exceed : State → Bool
counters_exceed s =
    not (s.next_workspace_id == 0)
    && not (s.next_window_id == 0)
    && not (s.next_pane_id == 0)
    && not (s.next_split_id == 0)
    && ltb (max_key s.workspaces) s.next_workspace_id
    && ltb (max_key s.windows) s.next_window_id
    && ltb (max_key s.panes) s.next_pane_id
    && ltb (max_split_id s.windows) s.next_split_id
    && ltb (max_stashed_split_id (values s.stashed_panes)) s.next_split_id

abbrev pub if_holds : Bool → State → Option State
if_holds true s = some s
if_holds false s = none

unfoldable pub state_from_snapshot : Snapshot → Option State
unfolding add_all add_tool add_workspace add_stashed_window add_stashed_pane add_window add_pane
    add_label add_attention references_hold counters_exceed validate_hierarchy
state_from_snapshot snap =
    add_all add_tool snap.tool_instances (empty_from snap)
    >>=? add_all add_workspace snap.workspaces
    >>=? add_all add_stashed_window snap.stashed_windows
    >>=? add_all add_stashed_pane snap.stashed_panes
    >>=? add_all add_window snap.windows
    >>=? λ s. add_all add_pane snap.panes (s, []) >>=? λ (s', terminals).
        if_holds (references_hold s') s'
        >>=? add_all add_label snap.labels
        >>=? add_all add_attention snap.attentions
        >>=? λ s. validate_hierarchy s >>=? λ _. if_holds (counters_exceed s) s

-- `ValidateSnapshot`: whether it returns nil.
unfoldable pub validate_snapshot : Snapshot → Bool
unfolding state_from_snapshot
validate_snapshot snap = is_some (state_from_snapshot snap)

-- `CloneSnapshot`.
unfoldable pub clone_snapshot : Snapshot → Option Snapshot
unfolding state_from_snapshot
clone_snapshot snap = state_from_snapshot snap >>=? λ s. some (snapshot s)

-- `cloneState` keeps the allocator of the attention IDs, which a snapshot does not hold.
unfoldable pub clone_state : State → Option State
unfolding state_from_snapshot
clone_state source = state_from_snapshot (snapshot source) >>=? λ s.
    some (record s { next_attention_id = source.next_attention_id })
