-- ===== src/Tui/Split/Tiling.antt =====
-- layout.go, `CalculateLayout`: the placements divide the cells of the screen.
use project_ariadne.Base.{
  ℕ, ◌+◌, ◌≤◌, ◌≡◌, ap, ap₂, sym, ◌∙◌, some, List, [], ◌∷◌, arith, length, sum, nat_eq, string_eq,
  Bool-cases, inl, inr,
}
use project_ariadne.Layout.Tree.{
  SplitDirection, LayoutNode, pane, split, Nodes, nil, cons, node_count,
}
use project_ariadne.Tui.Split.{
  Rect, Placement, weighted_lengths, axis, child_rect, is_empty, calculate_node, calculate_children,
  calculate_layout,
}
use project_ariadne.Tui.Split.Lengths.{weighted_lengths-shares}
use project_ariadne.Tui.Split.Cells.{
  covers, one_if, tally, tally-append, IsDrawable, AllDrawable, IsScreen, at, empty_covers, strips,
  no_strip, whole_strip, child-IsScreen, axis-bound, placed_at,
}

module _ (cx cy : ℕ) where
  mutual
    unfolding calculate_node IsDrawable tally sum

    tiles-node :
        (c : LayoutNode) (rect : Rect)
        → IsDrawable c
        → IsScreen rect
        → tally (placed_at cx cy) (calculate_node c rect) ≡ at cx cy rect
    tiles-node (pane p) rect h s = elim (Bool-cases (is_empty rect)) [
      | inl e ↦ rw e (sym (empty_covers cx cy rect e))
      | inr e ↦ rw e (omega arith)
    ]
    tiles-node (split id d cs ws) rect h s = elim (Bool-cases (is_empty rect)) [
      | inl e ↦ rw e (sym (empty_covers cx cy rect e))
      | inr e ↦ rw e (
          let (exact, one_each, total) =
            weighted_lengths-shares (axis d rect) (node_count cs) ws h.0 (axis-bound cx cy d rect s)
              h.1 h.2 in
          tiles-children d rect 0 cs (weighted_lengths (axis d rect) ws (node_count cs)) h.3 s
            one_each (omega (arith, total, axis-bound cx cy d rect s))
          ∙ ap (λ n. at cx cy (child_rect d rect 0 n)) total
          ∙ whole_strip cx cy d rect)
    ]

    tiles-children :
        (d : SplitDirection) (rect : Rect) (offset : ℕ) (cs : Nodes) (lengths : List ℕ)
        → AllDrawable cs
        → IsScreen rect
        → length lengths ≡ node_count cs
        → sum lengths ≤ 4294967295
        → tally (placed_at cx cy) (calculate_children d rect offset cs lengths)
          ≡ at cx cy (child_rect d rect offset (sum lengths))
    tiles-children d rect offset nil [] h s n b = sym (no_strip cx cy d rect offset)
    tiles-children d rect offset nil (l ∷ ls) h s n b = absurd (omega arith)
    tiles-children d rect offset (cons c cs) [] h s n b = absurd (omega arith)
    tiles-children d rect offset (cons c cs) (l ∷ ls) h s n b =
        tally-append (placed_at cx cy) (calculate_node c (child_rect d rect offset l))
          (calculate_children d rect (offset + l) cs ls)
        ∙ ap₂ (λ (a b : ℕ). a + b)
            (tiles-node c (child_rect d rect offset l) h.0
              (child-IsScreen cx cy d rect offset l s (omega arith)))
            (tiles-children d rect (offset + l) cs ls h.1 s (omega arith) (omega arith))
        ∙ sym (strips cx cy d rect offset l (sum ls))

-- For a layout whose splits have children and uint32 weights, on a screen with sides below 2^32,
-- `CalculateLayout` covers each cell of the screen by exactly one placement, and none outside.
pub calculate_layout_tiles :
    (root : LayoutNode) (available : Rect) (cx cy : ℕ)
    → IsDrawable root
    → IsScreen available
    → tally (λ (p : Placement). covers p.rect cx cy) (calculate_layout (some root) available)
      ≡ one_if (covers available cx cy)
unfolding calculate_layout tally
calculate_layout_tiles root available cx cy h s = elim (Bool-cases (is_empty available)) [
  | inl e ↦ rw e (sym (empty_covers cx cy available e))
  | inr e ↦ rw e (tiles-node cx cy root available h s)
]
