-- ===== src/Tui/Split.antt =====
-- internal/frontend/tui/layout.go: the places of the panes on the screen. The `int`s of a rectangle
-- are never negative there: the callers start from the size of the screen, and the lengths of
-- children add up to the length of their parent.
pub mod Lengths
pub mod Cells
pub mod Tiling
pub mod Separated
use project_ariadne.Base.{
  ℕ, zero, suc, ◌+◌, ◌-◌, ◌*◌, ◌/◌, ◌%◌, ◌^◌, Bool, true, false, ◌||◌, Option, none, some, List, [],
  ◌∷◌, ◌++◌, ◌==◌, nat_eq, string_eq, if◌then◌else◌, ltb,
}
use project_ariadne.Layout.Tree.{
  SplitDirection, LayoutNode, pane, split, Nodes, nil, cons, split_vertical, node_count,
}
use project_ariadne.Layout.Edit.{head_weight, rest_weights}

pub record Rect : Type 0 where
  pub x : ℕ
  pub y : ℕ
  pub w : ℕ
  pub h : ℕ

abbrev pub zero_rect : Rect
zero_rect = record { x = 0; y = 0; w = 0; h = 0 }

unfoldable pub interior : Rect → Rect
interior rect =
    if ltb rect.w 3 || ltb rect.h 3
    then zero_rect
    else record { x = rect.x + 1; y = rect.y + 1; w = rect.w - 2; h = rect.h - 2 }

pub record Placement : Type 0 where
  pub pane_id : ℕ
  pub rect : Rect

pub record Separator : Type 0 where
  pub rect : Rect
  pub direction : SplitDirection

pub record SplitLayout : Type 0 where
  pub placements : List Placement
  pub separators : List Separator

-- The weight of the first child that is left: 1 where there is none or 0.
abbrev pub next_weight : List ℕ → ℕ
next_weight ws = if head_weight ws == 0 then 1 else head_weight ws

-- The first loop of `weightedLengths`, from a sum on; the uint64 sum wraps.
unfoldable pub weight_total_from : ℕ → ℕ → List ℕ → ℕ
weight_total_from total zero ws = total
weight_total_from total (suc count) ws =
    weight_total_from ((total + next_weight ws) % 2 ^ 64) count (rest_weights ws)

-- The second loop: the last child takes what remains. The products and differences are uint64.
unfoldable pub distribute : ℕ → ℕ → ℕ → List ℕ → List ℕ
distribute remaining remaining_weight zero ws = []
distribute remaining remaining_weight (suc zero) ws = remaining ∷ []
distribute remaining remaining_weight (suc (suc count)) ws =
    let weight = next_weight ws in
    let length = remaining * weight % 2 ^ 64 / remaining_weight in
    length
    ∷ distribute (remaining - length) ((remaining_weight + (2 ^ 64 - weight)) % 2 ^ 64) (suc count)
        (rest_weights ws)

unfoldable pub zeros : ℕ → List ℕ
zeros zero = []
zeros (suc count) = 0 ∷ zeros count

unfoldable pub weighted_lengths : ℕ → List ℕ → ℕ → List ℕ
unfolding weight_total_from distribute zeros
weighted_lengths total weights count =
    if total == 0
    then zeros count
    else distribute total (weight_total_from 0 count weights) count weights

-- The side that a split divides. A vertical split stacks its children.
abbrev pub axis : SplitDirection → Rect → ℕ
axis direction rect = if direction == split_vertical then rect.h else rect.w

abbrev pub child_rect : SplitDirection → Rect → ℕ → ℕ → Rect
child_rect direction rect offset length =
    if direction == split_vertical
    then record rect { y = rect.y + offset; h = length }
    else record rect { x = rect.x + offset; w = length }

abbrev pub is_empty : Rect → Bool
is_empty rect = rect.w == 0 || rect.h == 0

-- `calculateNode`: the placements that it appends.
unfoldable mutual
  unfolding weighted_lengths

  pub calculate_node : LayoutNode → Rect → List Placement
  calculate_node (pane p) rect =
      if is_empty rect then [] else record { pane_id = p; rect = rect } ∷ []
  calculate_node (split s d cs ws) rect =
      let shown =
        calculate_children d rect 0 cs (weighted_lengths (axis d rect) ws (node_count cs)) in
      if is_empty rect then [] else shown

  -- There is a length for each child.
  pub calculate_children : SplitDirection → Rect → ℕ → Nodes → List ℕ → List Placement
  calculate_children d rect offset nil lengths = []
  calculate_children d rect offset (cons c cs) [] = []
  calculate_children d rect offset (cons c cs) (l ∷ lengths) =
      calculate_node c (child_rect d rect offset l)
      ++ calculate_children d rect (offset + l) cs lengths

unfoldable pub calculate_layout : Option LayoutNode → Rect → List Placement
unfolding calculate_node
calculate_layout none available = []
calculate_layout (some root) available =
    if is_empty available then [] else calculate_node root available

-- `min(len(node.Children)-1, max(0, axis-1))`, for at least one child.
abbrev pub separator_count : ℕ → ℕ → ℕ
separator_count count length = if ltb (count - 1) (length - 1) then count - 1 else length - 1

abbrev pub separator_rect : SplitDirection → Rect → ℕ → Rect
separator_rect direction rect offset =
    if direction == split_vertical
    then record { x = rect.x; y = rect.y + offset; w = rect.w; h = 1 }
    else record { x = rect.x + offset; y = rect.y; w = 1; h = rect.h }

abbrev pub appended : SplitLayout → SplitLayout → SplitLayout
appended a b = record {
  placements = a.placements ++ b.placements;
  separators = a.separators ++ b.separators;
}

abbrev pub no_split : SplitLayout
no_split = record { placements = []; separators = [] }

-- `calculateSplitNode`: what it appends.
unfoldable mutual
  unfolding weighted_lengths

  pub calculate_split_node : LayoutNode → Rect → SplitLayout
  calculate_split_node (pane p) rect =
      if is_empty rect
      then no_split
      else record { placements = record { pane_id = p; rect = rect } ∷ []; separators = [] }
  calculate_split_node (split s d cs ws) rect =
      let count = node_count cs in
      let separators = separator_count count (axis d rect) in
      let shown =
        calculate_split_children d rect 0 separators cs
          (weighted_lengths (axis d rect - separators) ws count) in
      if is_empty rect then no_split else shown

  -- `separators` are still to come: one behind each child until none is left.
  pub calculate_split_children : SplitDirection → Rect → ℕ → ℕ → Nodes → List ℕ → SplitLayout
  calculate_split_children d rect offset separators nil lengths = no_split
  calculate_split_children d rect offset separators (cons c cs) [] = no_split
  calculate_split_children d rect offset zero (cons c cs) (l ∷ lengths) =
      appended (calculate_split_node c (child_rect d rect offset l))
        (calculate_split_children d rect (offset + l) zero cs lengths)
  calculate_split_children d rect offset (suc separators) (cons c cs) (l ∷ lengths) =
      let rest = calculate_split_children d rect (offset + l + 1) separators cs lengths in
      appended (calculate_split_node c (child_rect d rect offset l)) (record rest {
        separators =
            record { rect = separator_rect d rect (offset + l); direction = d } ∷ rest.separators;
      })

unfoldable pub calculate_split_layout : Option LayoutNode → Rect → SplitLayout
unfolding calculate_split_node
calculate_split_layout none available = no_split
calculate_split_layout (some root) available =
    if is_empty available then no_split else calculate_split_node root available

unfoldable pub placement_for : List Placement → ℕ → Option Placement
placement_for [] pane_id = none
placement_for (p ∷ ps) pane_id =
    let rest = placement_for ps pane_id in if p.pane_id == pane_id then some p else rest
