-- ===== src/Tui/Resize/Path.antt =====
-- resize.go, `layoutPath`: it finds a pane exactly where the layout shows it.
use project_ariadne.Base.{
  ℕ, suc, ◌-◌, ◌≡◌, refl, Bool, List, [], ◌∷◌, ◌++◌, arith, length, nat_eq, string_eq, is_some,
  Option-cases, inl, inr,
}
use project_ariadne.Layout.Tree.{
  LayoutNode, pane, split, Nodes, nil, cons, node_count, layout_contains_pane, nodes_contain_pane,
}
use project_ariadne.Tui.Split.{Rect, weighted_lengths, axis, child_rect}
use project_ariadne.Tui.Split.Lengths.{length-weighted_lengths}
use project_ariadne.Tui.Resize.{LayoutAncestor, separators_of, next_offset, layout_path, path_among}

mutual
  unfolding layout_path layout_contains_pane

  is_some-layout_path :
      (c : LayoutNode) (rect : Rect) (p : ℕ) (cells : Bool) (path : List LayoutAncestor)
      → is_some (layout_path c rect p cells path) ≡ layout_contains_pane p c
  is_some-layout_path (pane q) rect p cells path = ground arith
  is_some-layout_path (split s d cs ws) rect p cells path =
      path_among-contains _ p cells path _ 0 cs
        (weighted_lengths (axis d rect - separators_of cells (node_count cs) (axis d rect)) ws
          (node_count cs))
        (length-weighted_lengths _ (node_count cs) ws)

  path_among-contains :
      (here : LayoutAncestor) (p : ℕ) (cells : Bool) (path : List LayoutAncestor)
      (separators offset : ℕ) (cs : Nodes) (lengths : List ℕ)
      → length lengths ≡ node_count cs
      → is_some (path_among here p cells path separators offset cs lengths)
        ≡ nodes_contain_pane p cs
  path_among-contains here p cells path separators offset nil lengths n = refl
  path_among-contains here p cells path separators offset (cons c cs) [] n = absurd (omega arith)
  path_among-contains here p cells path separators offset (cons c cs) (l ∷ ls) n =
      let rect = child_rect here.direction here.rect offset l in
      let deeper = is_some-layout_path c rect p cells (path ++ here ∷ []) in
      let later =
        path_among-contains (record here { child_index = suc here.child_index }) p cells path
          separators (next_offset here.child_index separators offset l) cs ls (omega (arith, n)) in
      elim (Option-cases (layout_path c rect p cells (path ++ here ∷ []))) [
        | inl missed ↦ ground (arith, missed, deeper, later)
        | inr (found, e) ↦ ground (arith, e, deeper)
      ]

-- `layoutPath` finds a pane exactly where the layout shows it, whatever the rectangle is.
pub layout_path-contains :
    (c : LayoutNode) (rect : Rect) (p : ℕ) (cells : Bool) (path : List LayoutAncestor)
    → is_some (layout_path c rect p cells path) ≡ layout_contains_pane p c
layout_path-contains = is_some-layout_path
