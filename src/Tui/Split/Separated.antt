-- ===== src/Tui/Split/Separated.antt =====
-- layout.go, `CalculateSplitLayout`: placements and separators divide the cells of the screen.
use project_ariadne.Base.{
  ℕ, zero, suc, ◌+◌, ◌-◌, ◌≤◌, ◌≡◌, ap, ap₂, sym, ◌∙◌, Bool, some, List, [], ◌∷◌, arith, length,
  sum, nat_eq, string_eq, Bool-cases, inl, inr,
}
use project_ariadne.Layout.Tree.{
  SplitDirection, LayoutNode, pane, split, Nodes, nil, cons, node_count,
}
use project_ariadne.Tui.Split.{
  Rect, Placement, Separator, SplitLayout, weighted_lengths, axis, child_rect, is_empty,
  separator_count, separator_rect, appended, calculate_split_node, calculate_split_children,
  calculate_split_layout,
}
use project_ariadne.Tui.Split.Lengths.{weighted_lengths-shares}
use project_ariadne.Tui.Split.Cells.{
  covers, one_if, tally, tally-append, IsDrawable, AllDrawable, IsScreen, at, empty_covers, strips,
  no_strip, whole_strip, child-IsScreen, axis-bound, placed_at,
}

module _ (cx cy : ℕ) where
  abbrev separator_at : Separator → Bool
  separator_at s = covers s.rect cx cy

  -- How many placements and separators hold the cell.
  unfoldable layout_at : SplitLayout → ℕ
  layout_at l = tally (placed_at cx cy) l.placements + tally separator_at l.separators

  layout_at-appended : (a b : SplitLayout) → layout_at (appended a b) ≡ layout_at a + layout_at b
  unfolding layout_at
  layout_at-appended a b = omega (
    arith,
    tally-append (placed_at cx cy) a.placements b.placements,
    tally-append separator_at a.separators b.separators,
  )

  separator_strip :
      (d : SplitDirection) (rect : Rect) (offset : ℕ)
      → at cx cy (separator_rect d rect offset) ≡ at cx cy (child_rect d rect offset 1)
  separator_strip d rect offset = ground arith

  mutual
    unfolding calculate_split_node IsDrawable layout_at tally sum

    tiles-split_node :
        (c : LayoutNode) (rect : Rect)
        → IsDrawable c
        → IsScreen rect
        → layout_at (calculate_split_node c rect) ≡ at cx cy rect
    tiles-split_node (pane p) rect h s = elim (Bool-cases (is_empty rect)) [
      | inl e ↦ rw e (sym (empty_covers cx cy rect e))
      | inr e ↦ rw e (omega arith)
    ]
    tiles-split_node (split id d cs ws) rect h s = elim (Bool-cases (is_empty rect)) [
      | inl e ↦ rw e (sym (empty_covers cx cy rect e))
      | inr e ↦ rw e (
          let k = separator_count (node_count cs) (axis d rect) in
          let bound = axis-bound cx cy d rect s in
          let few : (k + 1 ≤ node_count cs) × (k ≤ axis d rect) = ground (arith, h.1) in
          let (exact, one_each, total) =
            weighted_lengths-shares (axis d rect - k) (node_count cs) ws h.0 (omega arith) h.1
              h.2 in
          tiles-split_children d rect 0 k cs (weighted_lengths (axis d rect - k) ws (node_count cs))
            h.3 s one_each (omega (arith, total)) (omega arith)
          ∙ ap (λ n. at cx cy (child_rect d rect 0 n)) (omega (arith, total))
          ∙ whole_strip cx cy d rect)
    ]

    tiles-split_children :
        (d : SplitDirection) (rect : Rect) (offset k : ℕ) (cs : Nodes) (lengths : List ℕ)
        → AllDrawable cs
        → IsScreen rect
        → length lengths ≡ node_count cs
        → sum lengths ≤ 4294967295
        → k ≤ node_count cs
        → layout_at (calculate_split_children d rect offset k cs lengths)
          ≡ at cx cy (child_rect d rect offset (sum lengths + k))
    tiles-split_children d rect offset k nil [] h s n b f =
        sym (no_strip cx cy d rect offset)
        ∙ ap (λ n. at cx cy (child_rect d rect offset n)) (omega arith)
    tiles-split_children d rect offset k nil (l ∷ ls) h s n b f = absurd (omega arith)
    tiles-split_children d rect offset k (cons c cs) [] h s n b f = absurd (omega arith)
    tiles-split_children d rect offset zero (cons c cs) (l ∷ ls) h s n b f =
        layout_at-appended (calculate_split_node c (child_rect d rect offset l))
          (calculate_split_children d rect (offset + l) zero cs ls)
        ∙ ap₂ (λ (a b : ℕ). a + b)
            (tiles-split_node c (child_rect d rect offset l) h.0
              (child-IsScreen cx cy d rect offset l s (omega arith)))
            (tiles-split_children d rect (offset + l) zero cs ls h.1 s (omega arith) (omega arith)
              (omega arith))
        ∙ sym (strips cx cy d rect offset l (sum ls + 0))
        ∙ ap (λ n. at cx cy (child_rect d rect offset n)) (omega arith)
    tiles-split_children d rect offset (suc k) (cons c cs) (l ∷ ls) h s n b f =
        let rest = calculate_split_children d rect (offset + l + 1) k cs ls in
        let node = calculate_split_node c (child_rect d rect offset l) in
        let placed =
          tiles-split_node c (child_rect d rect offset l) h.0
            (child-IsScreen cx cy d rect offset l s (omega arith)) in
        let behind =
          tiles-split_children d rect (offset + l + 1) k cs ls h.1 s (omega arith) (omega arith)
            (omega arith) in
        let same : l + (1 + (sum ls + k)) ≡ l + sum ls + suc k = omega arith in
        omega (
          arith,
          layout_at-appended node (record rest {
            separators =
                record { rect = separator_rect d rect (offset + l); direction = d }
                ∷ rest.separators;
          }),
          placed,
          behind,
          separator_strip d rect (offset + l),
          strips cx cy d rect (offset + l) 1 (sum ls + k),
          strips cx cy d rect offset l (1 + (sum ls + k)),
          ap (λ n. at cx cy (child_rect d rect offset n)) same,
        )

-- For a layout whose splits have children and uint32 weights, on a screen with sides below 2^32, each
-- cell of the screen lies in exactly one placement or separator of
-- `CalculateSplitLayout`, and no cell outside does.
pub calculate_split_layout_tiles :
    (root : LayoutNode) (available : Rect) (cx cy : ℕ)
    → IsDrawable root
    → IsScreen available
    → let shown = calculate_split_layout (some root) available in
      tally (λ (p : Placement). covers p.rect cx cy) shown.placements
        + tally (λ (s : Separator). covers s.rect cx cy) shown.separators
      ≡ one_if (covers available cx cy)
unfolding calculate_split_layout layout_at tally
calculate_split_layout_tiles root available cx cy h s = elim (Bool-cases (is_empty available)) [
  | inl e ↦ rw e (sym (empty_covers cx cy available e))
  | inr e ↦ rw e (tiles-split_node cx cy root available h s)
]
