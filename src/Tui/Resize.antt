-- ===== src/Tui/Resize.antt =====
-- internal/frontend/tui/resize.go, and `nodeMinimum` of minimum.go. What a pane needs at least
-- depends on its renderer: it is a parameter, the width and the height by the pane's ID.
pub mod OneCell
pub mod Path
pub mod Ancestors
pub mod Handler
use project_ariadne.Base.{
  ℕ, zero, suc, ◌+◌, ◌-◌, ◌%◌, ◌^◌, Bool, true, false, ◌||◌, Option, none, some, List, [], ◌∷◌,
  ◌++◌, map, ◌==◌, nat_eq, string_eq, if◌then◌else◌, ltb, leb, get_elem?, max, not,
}
use project_ariadne.Layout.Tree.{
  SplitDirection, LayoutNode, pane, split, Nodes, nil, cons, split_horizontal, split_vertical,
  node_count,
}
use project_ariadne.Tui.Split.{Rect, weighted_lengths, axis, child_rect, separator_count}

-- The split of an ancestor is written out: its ID, direction, children and weights.
pub record LayoutAncestor : Type 0 where
  pub split_id : ℕ
  pub direction : SplitDirection
  pub children : Nodes
  pub weights : List ℕ
  pub rect : Rect
  pub child_index : ℕ

abbrev pub separators_of : Bool → ℕ → ℕ → ℕ
separators_of separator_cells count length =
    if separator_cells then separator_count count length else 0

-- Where the next child starts: behind a separator while there is one.
abbrev pub next_offset : ℕ → ℕ → ℕ → ℕ → ℕ
next_offset index separators offset length =
    if ltb index separators then offset + length + 1 else offset + length

-- `layoutPath`: the ancestors of a pane, the root first; `none` says that it was not found.
unfoldable mutual
  unfolding weighted_lengths

  pub layout_path :
      LayoutNode → Rect → ℕ → Bool → List LayoutAncestor → Option (List LayoutAncestor)
  layout_path (pane p) rect pane_id cells path = if p == pane_id then some path else none
  layout_path (split s d cs ws) rect pane_id cells path =
      let separators = separators_of cells (node_count cs) (axis d rect) in
      let lengths = weighted_lengths (axis d rect - separators) ws (node_count cs) in
      path_among
        (record {
          split_id = s;
          direction = d;
          children = cs;
          weights = ws;
          rect = rect;
          child_index = 0;
        })
        pane_id cells path separators 0 cs lengths

  -- The loop over the children that are left, from an index and an offset on.
  pub path_among :
      LayoutAncestor
      → ℕ
      → Bool
      → List LayoutAncestor
      → ℕ
      → ℕ
      → Nodes
      → List ℕ
      → Option (List LayoutAncestor)
  path_among here pane_id cells path separators offset nil lengths = none
  path_among here pane_id cells path separators offset (cons c cs) [] = none
  path_among here pane_id cells path separators offset (cons c cs) (l ∷ lengths) =
      let deeper =
        layout_path c (child_rect here.direction here.rect offset l) pane_id cells
          (path ++ here ∷ []) in
      let later =
        path_among (record here { child_index = suc here.child_index }) pane_id cells path
          separators (next_offset here.child_index separators offset l) cs lengths in
      elim deeper [ some found ↦ some found | none ↦ later ]

pub data ResizeAction : Type 0 where
  resize_left resize_right resize_up resize_down : ResizeAction

-- `resizeDirection`: whether the neighbour is the next child, else it is the one before.
unfoldable pub resize_direction : ResizeAction → SplitDirection × Bool
resize_direction resize_left = (split_horizontal, false)
resize_direction resize_right = (split_horizontal, true)
resize_direction resize_up = (split_vertical, false)
resize_direction resize_down = (split_vertical, true)

-- The index of the neighbour, if it is one of the children.
unfoldable pub neighbor_of : Bool → ℕ → ℕ → Option ℕ
neighbor_of true index count = if ltb (suc index) count then some (suc index) else none
neighbor_of false zero count = none
neighbor_of false (suc index) count = if ltb index count then some index else none

abbrev pub node_at : Nodes → ℕ → LayoutNode
node_at nil index = pane 0
node_at (cons c cs) zero = c
node_at (cons c cs) (suc index) = node_at cs index

-- `lengths[index]++` and `lengths[index]--`, for an index in range.
unfoldable pub grow_at : ℕ → List ℕ → List ℕ
grow_at index [] = []
grow_at zero (l ∷ ls) = suc l ∷ ls
grow_at (suc index) (l ∷ ls) = l ∷ grow_at index ls

unfoldable pub shrink_at : ℕ → List ℕ → List ℕ
shrink_at index [] = []
shrink_at zero (l ∷ ls) = (l - 1) ∷ ls
shrink_at (suc index) (l ∷ ls) = l ∷ shrink_at index ls

abbrev pub length_at : List ℕ → ℕ → ℕ
length_at [] index = 0
length_at (l ∷ ls) zero = l
length_at (l ∷ ls) (suc index) = length_at ls index

abbrev pub to_uint32 : ℕ → ℕ
to_uint32 n = n % 2 ^ 32

-- What the handler does: a message, or a request to resize a split.
pub data ResizeOutcome : Type 0 where
  ignored : ResizeOutcome
  at_minimum_size : ResizeOutcome
  no_adjacent_pane : ResizeOutcome
  resize_request : ℕ → List ℕ → ResizeOutcome

-- The cells that the children of an ancestor share, and their lengths.
abbrev pub shared_length : Bool → LayoutAncestor → ℕ
shared_length split_frame a =
    let length = axis a.direction a.rect in
    length - separators_of split_frame (node_count a.children) length

unfoldable pub ancestor_lengths : Bool → LayoutAncestor → List ℕ
unfolding weighted_lengths
ancestor_lengths split_frame a =
    weighted_lengths (shared_length split_frame a) a.weights (node_count a.children)

module _ (pane_minimum : ℕ → ℕ × ℕ) (split_frame : Bool) where
  -- `nodeMinimum`: the width and the height that a node needs.
  unfoldable mutual
    pub node_minimum : LayoutNode → ℕ × ℕ
    node_minimum (pane p) = pane_minimum p
    node_minimum (split s d cs ws) =
        let (w, h) = children_minimum d cs 0 0 in
        let lines = if split_frame then node_count cs - 1 else 0 in
        if d == split_horizontal then (w + lines, h) else (w, h + lines)

    pub children_minimum : SplitDirection → Nodes → ℕ → ℕ → ℕ × ℕ
    children_minimum d nil w h = (w, h)
    children_minimum d (cons c cs) w h =
        let (cw, ch) = node_minimum c in
        if d == split_horizontal
        then children_minimum d cs (w + cw) (max h ch)
        else children_minimum d cs (max w cw) (h + ch)

  -- The side of a minimum that a direction asks for.
  abbrev pub minimum_along : SplitDirection → ℕ × ℕ → ℕ
  minimum_along direction (w, h) = if direction == split_vertical then h else w

  -- The body of the loop, at an ancestor with a neighbour.
  unfoldable pub resize_at : SplitDirection → LayoutAncestor → ℕ → ResizeOutcome
  unfolding node_minimum ancestor_lengths grow_at shrink_at
  resize_at direction a neighbor =
      let lengths = ancestor_lengths split_frame a in
      let minimum = minimum_along direction (node_minimum (node_at a.children neighbor)) in
      if leb (length_at lengths neighbor) minimum
      then at_minimum_size
      else resize_request a.split_id
          (map to_uint32 (shrink_at neighbor (grow_at a.child_index lengths)))

  -- The loop from the innermost ancestor outwards: `none` if it runs through.
  unfoldable pub resize_among : SplitDirection → Bool → List LayoutAncestor → Option ResizeOutcome
  unfolding neighbor_of resize_at
  resize_among direction next [] = none
  resize_among direction next (a ∷ path) =
      let inner = resize_among direction next path in
      let here : Option ResizeOutcome =
        elim (neighbor_of next a.child_index (node_count a.children)) [
          | none ↦ none
          | some neighbor ↦ some (resize_at direction a neighbor)
        ] in
      elim inner [
        | some outcome ↦ some outcome
        | none ↦ if a.direction == direction then here else none
      ]

  -- `resizeFocusedPane`, for the layout of the current window and the size of the screen.
  unfoldable pub resize_focused_pane : Option LayoutNode → ℕ → ℕ → ℕ → ResizeAction → ResizeOutcome
  unfolding layout_path resize_direction resize_among
  resize_focused_pane none width height focus action = ignored
  resize_focused_pane (some layout) width height focus action =
      let root : Rect = record { x = 0; y = 0; w = width; h = height } in
      let (direction, next) = resize_direction action in
      if focus == 0 then ignored else elim (layout_path layout root focus split_frame []) [
        | none ↦ ignored
        | some path ↦ elim (resize_among direction next path) [
          | none ↦ no_adjacent_pane
          | some outcome ↦ outcome
        ]
      ]
