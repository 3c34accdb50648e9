-- ===== src/Core/Replica.antt =====
-- apply_event.go: a frontend's replica of the state, a Snapshot that follows the events. Every error
-- wraps ErrInvalidState: `none`.
pub mod Upserts
pub mod Follows
pub mod Following
pub mod Exact
pub mod Created
use project_ariadne.Base.{
  ◌%◌, ◌^◌, ℕ, ◌+◌, Option, none, some, List, [], ◌∷◌, ◌++◌, ◌==◌, Eq, nat_eq, if◌then◌else◌, leb,
  ◌>>=?◌,
}
use project_ariadne.Layout.Tree.{LayoutNode, pane, split, Nodes, nil, cons}
use project_ariadne.Layout.Hint.{StashedPane}
use project_ariadne.Model.Tool.{ToolDescriptor, ToolInstance, tool_eq, key_for_tool}
use project_ariadne.Model.Pane.{Pane}
use project_ariadne.Model.Label.{Label, key_for_label, label_key_eq}
use project_ariadne.Model.Attention.{Attention}
use project_ariadne.Model.Places.{Workspace, Window, StashedWindow}
use project_ariadne.State.Snapshots.{Snapshot}
use project_ariadne.State.Restore.{validate_snapshot}
use project_ariadne.Core.Events.{Event, EventKind, Payload}

-- The loops of the `upsert` and `remove` functions: the first entry with the key, or the end.
module _ {A K : Type 0} ⦃e : Eq K⦄ (key : A → K) where
  unfoldable pub upsert : A → List A → List A
  upsert a [] = a ∷ []
  upsert a (x ∷ xs) = let rest = upsert a xs in if key x == key a then a ∷ xs else x ∷ rest

  unfoldable pub remove : K → List A → List A
  remove k [] = []
  remove k (x ∷ xs) = let rest = remove k xs in if key x == k then xs else x ∷ rest

abbrev pub tool_key : ToolInstance → ToolDescriptor
tool_key tool = key_for_tool tool.descriptor

abbrev pub workspace_key : Workspace → ℕ
workspace_key w = w.id

abbrev pub window_key : Window → ℕ
window_key w = w.id

abbrev pub pane_key : Pane → ℕ
pane_key p = p.id

abbrev pub stashed_pane_key : StashedPane → ℕ
stashed_pane_key p = p.pane_id

abbrev pub stashed_window_key : StashedWindow → ℕ
stashed_window_key w = w.window_id

abbrev pub attention_id : Attention → ℕ
attention_id a = a.id

unfoldable pub upsert_tool : ToolInstance → Snapshot → Snapshot
unfolding upsert
upsert_tool tool snap = record snap { tool_instances = upsert tool_key tool snap.tool_instances }

unfoldable pub remove_snapshot_tool : ToolDescriptor → Snapshot → Snapshot
unfolding remove
remove_snapshot_tool descriptor snap = record snap {
  tool_instances = remove tool_key (key_for_tool descriptor) snap.tool_instances;
}

unfoldable pub upsert_attention : Attention → Snapshot → Snapshot
unfolding upsert
upsert_attention a snap = record snap { attentions = upsert attention_id a snap.attentions }

unfoldable pub remove_snapshot_attention : ℕ → Snapshot → Snapshot
unfolding remove
remove_snapshot_attention id snap = record snap {
  attentions = remove attention_id id snap.attentions;
}

unfoldable pub upsert_stashed_pane : StashedPane → Snapshot → Snapshot
unfolding upsert
upsert_stashed_pane p snap = record snap {
  stashed_panes = upsert stashed_pane_key p snap.stashed_panes;
}

unfoldable pub remove_stashed_pane : ℕ → Snapshot → Snapshot
unfolding remove
remove_stashed_pane id snap = record snap {
  stashed_panes = remove stashed_pane_key id snap.stashed_panes;
}

unfoldable pub upsert_stashed_window : StashedWindow → Snapshot → Snapshot
unfolding upsert
upsert_stashed_window w snap = record snap {
  stashed_windows = upsert stashed_window_key w snap.stashed_windows;
}

unfoldable pub remove_stashed_window : ℕ → Snapshot → Snapshot
unfolding remove
remove_stashed_window id snap = record snap {
  stashed_windows = remove stashed_window_key id snap.stashed_windows;
}

unfoldable pub upsert_window : Window → Snapshot → Snapshot
unfolding upsert
upsert_window w snap = record snap { windows = upsert window_key w snap.windows }

unfoldable pub upsert_workspace : Workspace → Snapshot → Snapshot
unfolding upsert
upsert_workspace w snap = record snap { workspaces = upsert workspace_key w snap.workspaces }

unfoldable pub remove_workspace : ℕ → Snapshot → Snapshot
unfolding remove
remove_workspace id snap = record snap { workspaces = remove workspace_key id snap.workspaces }

unfoldable pub remove_window : ℕ → Snapshot → Snapshot
unfolding remove
remove_window id snap = record snap { windows = remove window_key id snap.windows }

unfoldable pub upsert_pane : Pane → Snapshot → Snapshot
unfolding upsert
upsert_pane p snap = record snap { panes = upsert pane_key p snap.panes }

-- In the case of a closed pane the loop stands in `ApplyEvent` itself.
unfoldable pub remove_pane : ℕ → Snapshot → Snapshot
unfolding remove
remove_pane id snap = record snap { panes = remove pane_key id snap.panes }

unfoldable pub upsert_label : Label → Snapshot → Snapshot
unfolding upsert
upsert_label l snap = record snap { labels = upsert key_for_label l snap.labels }

unfoldable pub remove_snapshot_label : Label → Snapshot → Snapshot
unfolding remove
remove_snapshot_label l snap = record snap {
  labels = remove key_for_label (key_for_label l) snap.labels;
}

-- A counter after an ID is seen; `id + 1` wraps.
abbrev pub bump : ℕ → ℕ → ℕ
bump next id = if leb next id then (id + 1) % 2 ^ 64 else next

-- The closure of `bumpNextSplitID`; a leaf has the split ID 0.
unfoldable mutual
  pub bump_visit : ℕ → LayoutNode → ℕ
  bump_visit next (pane p) = bump next 0
  bump_visit next (split s d cs ws) = bump_children (bump next s) cs

  pub bump_children : ℕ → Nodes → ℕ
  bump_children next nil = next
  bump_children next (cons c cs) = bump_children (bump_visit next c) cs

abbrev bump_layout : ℕ → Option LayoutNode → ℕ
bump_layout next none = next
bump_layout next (some layout) = bump_visit next layout

unfoldable pub bump_next_split_id : Window → Snapshot → Snapshot
unfolding bump_visit
bump_next_split_id w snap = record snap { next_split_id = bump_layout snap.next_split_id w.layout }

-- The loops over what an event removes, and over what it may carry.
unfoldable pub each : {A : Type 0} → (A → Snapshot → Snapshot) → List A → Snapshot → Snapshot
each step [] snap = snap
each step (a ∷ as') snap = each step as' (step a snap)

abbrev pub if_given : {A : Type 0} → (A → Snapshot → Snapshot) → Option A → Snapshot → Snapshot
if_given step none snap = snap
if_given step (some a) snap = step a snap

abbrev remove_labels : List Label → Snapshot → Snapshot
remove_labels labels snap = each remove_snapshot_label labels snap

abbrev remove_attentions : List Attention → Snapshot → Snapshot
remove_attentions attentions snap =
    each (λ (a : Attention). remove_snapshot_attention a.id) attentions snap

unfoldable pub apply_pane_stash :
    EventKind → Pane → Window → StashedPane → Snapshot → Option Snapshot
unfolding upsert_pane upsert_window upsert_stashed_pane remove_stashed_pane bump_next_split_id
apply_pane_stash kind p window stashed snap =
    let next =
      upsert_window window
        (upsert_pane p (record snap { next_pane_id = bump snap.next_pane_id p.id })) in
    elim kind [
      | EventKind.pane_stashed ↦ some (upsert_stashed_pane stashed next)
      | EventKind.pane_restored ↦ some (bump_next_split_id window (remove_stashed_pane p.id next))
      | _ ↦ none
    ]

unfoldable pub apply_window_stash :
    EventKind → Window → Workspace → StashedWindow → Snapshot → Option Snapshot
unfolding upsert_window upsert_workspace upsert_stashed_window remove_stashed_window
apply_window_stash kind window workspace stashed snap =
    let next = upsert_workspace workspace (upsert_window window snap) in
    elim kind [
      | EventKind.window_stashed ↦ some (upsert_stashed_window stashed next)
      | EventKind.window_restored ↦ some (remove_stashed_window window.id next)
      | _ ↦ none
    ]

unfoldable pub apply_pane_closed :
    Pane → Window → List Label → Option ToolInstance → List Attention → Snapshot → Snapshot
unfolding remove_pane remove_stashed_pane upsert_window each remove_snapshot_label
    remove_snapshot_tool remove_snapshot_attention
apply_pane_closed p window labels tool attentions snap =
    let hidden = remove_stashed_pane p.id (remove_pane p.id snap) in
    let shown = if window.id == 0 then hidden else upsert_window window hidden in
    remove_attentions attentions (
      if_given (λ (t : ToolInstance). remove_snapshot_tool t.descriptor) tool
        (remove_labels labels shown))

-- The switch of `ApplyEvent`.
unfoldable pub apply_payload : EventKind → Payload → Snapshot → Option Snapshot
unfolding upsert_workspace remove_workspace upsert_window remove_window upsert_pane upsert_tool
    upsert_label remove_snapshot_label upsert_attention remove_snapshot_attention bump_next_split_id
    each apply_pane_stash apply_window_stash apply_pane_closed
apply_payload kind (Payload.workspace_created_event w) snap = some (record snap {
  workspaces = snap.workspaces ++ w ∷ [];
  next_workspace_id = bump snap.next_workspace_id w.id;
})
apply_payload kind (Payload.workspace_event w) snap = some (upsert_workspace w snap)
apply_payload kind (Payload.workspace_deleted_event w labels) snap =
    some (remove_labels labels (remove_workspace w.id snap))
apply_payload kind (Payload.window_created_event w) snap = some (record snap {
  windows = snap.windows ++ w ∷ [];
  next_window_id = bump snap.next_window_id w.id;
})
apply_payload kind (Payload.window_event w) snap = some (upsert_window w snap)
apply_payload kind (Payload.window_deleted_event w workspace labels) snap =
    some (remove_labels labels (upsert_workspace workspace (remove_window w.id snap)))
apply_payload kind (Payload.pane_created_event p window target direction tool) snap =
    let noted = if_given upsert_tool tool snap in
    let added = record noted {
      panes = noted.panes ++ p ∷ [];
      next_pane_id = bump noted.next_pane_id p.id;
    } in
    some (bump_next_split_id window (upsert_window window added))
apply_payload kind (Payload.pane_moved_event p source destination target direction) snap = some (
    bump_next_split_id destination (
      bump_next_split_id source
        (upsert_window destination (upsert_window source (upsert_pane p snap)))))
apply_payload kind (Payload.pane_closed_event p window labels tool attentions) snap =
    some (apply_pane_closed p window labels tool attentions snap)
apply_payload kind (Payload.pane_stash_event p window stashed) snap =
    apply_pane_stash kind p window stashed snap
apply_payload kind (Payload.window_stash_event window workspace stashed) snap =
    apply_window_stash kind window workspace stashed snap
apply_payload kind (Payload.terminal_event p) snap = some (upsert_pane p snap)
apply_payload kind (Payload.label_event l) snap = elim kind [
  | EventKind.label_set ↦ some (upsert_label l snap)
  | EventKind.label_removed ↦ some (remove_snapshot_label l snap)
  | _ ↦ none
]
apply_payload kind (Payload.labels_event labels) snap = elim kind [
  | EventKind.label_source_cleared ↦ some (remove_labels labels snap)
  | _ ↦ none
]
apply_payload kind (Payload.tool_event tool) snap = some (upsert_tool tool snap)
apply_payload kind (Payload.attention_event a removed) snap =
    some (remove_attentions removed (upsert_attention a snap))
apply_payload kind (Payload.attentions_event attentions) snap = elim kind [
  | EventKind.attention_source_cleared ↦ some (remove_attentions attentions snap)
  | _ ↦ none
]

-- What the end of `ApplyEvent` makes of the changed snapshot.
unfoldable pub accept_next : ℕ → Snapshot → Option Snapshot
unfolding validate_snapshot
accept_next revision snap =
    let next = record snap { revision = revision } in
    if validate_snapshot next then some next else none

unfoldable pub apply_event : Snapshot → Event → Option Snapshot
unfolding apply_payload accept_next
apply_event snap event =
    if event.revision == (snap.revision + 1) % 2 ^ 64
    then apply_payload event.kind event.payload snap >>=? accept_next event.revision
    else none
