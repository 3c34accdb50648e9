-- ===== src/Examples/Screens.antt =====
-- The theorems on the terminal frontend's screen (tui/layout.go, tui/resize.go) at three panes.
use project_ariadne.Base.{ℕ, ◌+◌, ◌≤◌, ◌≡◌, refl, true, some, [], ◌∷◌, length, sum, arith, nat_eq}
use project_ariadne.Layout.Tree.{
  LayoutNode, pane, split, nil, cons, split_horizontal, split_vertical,
}
use project_ariadne.Tui.Split.{
  Rect, Placement, Separator, weighted_lengths, distribute, weight_total_from, calculate_layout,
  calculate_split_layout,
}
use project_ariadne.Tui.Split.Lengths.{shares, weighted_lengths-shares}
use project_ariadne.Tui.Split.Cells.{covers, tally, IsDrawable}
use project_ariadne.Tui.Split.Tiling.{calculate_layout_tiles}
use project_ariadne.Tui.Split.Separated.{calculate_split_layout_tiles}
use project_ariadne.Tui.Resize.{
  LayoutAncestor, layout_path, resize_right, resize_direction, resize_at, resize_request,
  resize_focused_pane, neighbor_of, ancestor_lengths, grow_at, shrink_at, length_at, node_minimum,
  resize_among,
}
use project_ariadne.Tui.Resize.OneCell.{IsPositive, length_moved, resize_moves_one_cell}
use project_ariadne.Tui.Resize.Handler.{IsRequested, resize_focused_pane-request}

-- Pane 1 on the left, and on the right 2 above 3.
abbrev beside : LayoutNode
beside =
    split 1 split_horizontal
      (cons (pane 1)
        (cons (split 2 split_vertical (cons (pane 2) (cons (pane 3) nil)) (1 ∷ 1 ∷ [])) nil))
      (2 ∷ 1 ∷ [])

abbrev screen : Rect
screen = record { x = 0; y = 0; w = 80; h = 24 }

beside-IsDrawable : IsDrawable beside
unfolding IsDrawable
beside-IsDrawable =
    let right : IsDrawable
        (split 2 split_vertical (cons (pane 2) (cons (pane 3) nil)) (1 ∷ 1 ∷ [])) =
      ((omega arith, (omega arith, tt)), omega arith, omega arith, (tt, (tt, tt))) in
    ((omega arith, (omega arith, tt)), omega arith, omega arith, (tt, (right, tt)))

weighted_lengths-shares_example :
    (weighted_lengths 80 (2 ∷ 1 ∷ []) 2 ≡ shares 80 2 (2 ∷ 1 ∷ []))
    × (length (weighted_lengths 80 (2 ∷ 1 ∷ []) 2) ≡ 2)
    × (sum (weighted_lengths 80 (2 ∷ 1 ∷ []) 2) ≡ 80)
weighted_lengths-shares_example =
    weighted_lengths-shares 80 2 (2 ∷ 1 ∷ []) (omega arith, (omega arith, tt)) (omega arith)
      (omega arith) (omega arith)

calculate_layout_tiles_example :
    tally (λ (p : Placement). covers p.rect 60 3) (calculate_layout (some beside) screen) ≡ 1
calculate_layout_tiles_example =
    calculate_layout_tiles beside screen 60 3 beside-IsDrawable (omega arith, omega arith)

calculate_split_layout_tiles_example :
    let shown = calculate_split_layout (some beside) screen in
    tally (λ (p : Placement). covers p.rect 53 3) shown.placements
      + tally (λ (s : Separator). covers s.rect 53 3) shown.separators
    ≡ 1
calculate_split_layout_tiles_example =
    calculate_split_layout_tiles beside screen 53 3 beside-IsDrawable (omega arith, omega arith)

abbrev root_ancestor : LayoutAncestor
root_ancestor = record {
  split_id = 1;
  direction = split_horizontal;
  children =
      cons (pane 1)
        (cons (split 2 split_vertical (cons (pane 2) (cons (pane 3) nil)) (1 ∷ 1 ∷ [])) nil);
  weights = 2 ∷ 1 ∷ [];
  rect = screen;
  child_index = 0;
}

abbrev two_by_one : ℕ → ℕ × ℕ
two_by_one p = (2, 1)

beside_neighbor : neighbor_of true 0 2 ≡ some 1
unfolding neighbor_of
beside_neighbor = refl

lengths_are : ancestor_lengths true root_ancestor ≡ 52 ∷ 27 ∷ []
unfolding ancestor_lengths weighted_lengths distribute weight_total_from
lengths_are = refl

positive : IsPositive (ancestor_lengths true root_ancestor)
unfolding ancestor_lengths weighted_lengths distribute weight_total_from
positive = (omega arith, (omega arith, tt))

needs : 1 ≤ 2
needs = omega arith

requests :
    resize_at two_by_one true split_horizontal root_ancestor 1 ≡ resize_request 1 (53 ∷ 26 ∷ [])
unfolding resize_at ancestor_lengths weighted_lengths distribute weight_total_from node_minimum
    grow_at shrink_at
requests = refl

resize_moves_one_cell_example :
    (1 ≡ root_ancestor.split_id)
    × (length_at (ancestor_lengths true (record root_ancestor { weights = 53 ∷ 26 ∷ [] })) 1
        ≡ length_moved 0 1 (ancestor_lengths true root_ancestor) 1)
    × (sum (ancestor_lengths true (record root_ancestor { weights = 53 ∷ 26 ∷ [] }))
        ≡ sum (ancestor_lengths true root_ancestor))
unfolding node_minimum
resize_moves_one_cell_example =
    resize_moves_one_cell two_by_one true true split_horizontal root_ancestor 1 1 1 (53 ∷ 26 ∷ [])
      ((omega arith, (omega arith, tt)), omega arith, omega arith, (omega arith, omega arith))
      beside_neighbor positive needs requests

asks :
    resize_focused_pane two_by_one true (some beside) 80 24 1 resize_right
    ≡ resize_request 1 (53 ∷ 26 ∷ [])
unfolding resize_focused_pane resize_among resize_at ancestor_lengths weighted_lengths distribute
    weight_total_from node_minimum grow_at shrink_at layout_path resize_direction neighbor_of
asks = refl

resize_focused_pane-request_example :
    (a : LayoutAncestor) × (neighbor : ℕ) × IsRequested two_by_one true beside 1
      (resize_direction resize_right)
      1
      (53 ∷ 26 ∷ [])
      a
      neighbor
resize_focused_pane-request_example =
    resize_focused_pane-request two_by_one true beside 80 24 1 1 resize_right (53 ∷ 26 ∷ [])
      beside-IsDrawable (omega arith) (omega arith) asks
