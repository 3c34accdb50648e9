-- ===== src/Tui/Resize/Ancestors.antt =====
-- resize.go, `layoutPath`: the ancestors that it gives are splits of the layout that lead to the pane.
use project_ariadne.Base.{
  refl, ◌⊎◌, false, ℕ, suc, ◌+◌, ◌-◌, ◌≤◌, ◌≡◌, ap, subst, ◌∙◌, Bool, true, some, List, [], ◌∷◌,
  ◌++◌, arith, All, All-snoc, sum, nat_eq, string_eq, Option-cases, inl, inr,
}
use project_ariadne.Layout.Tree.{
  LayoutNode, pane, split, Nodes, nil, cons, node_count, layout_contains_pane, nodes_contain_pane,
}
use project_ariadne.Tui.Split.{Rect, weighted_lengths, axis, child_rect}
use project_ariadne.Tui.Split.Lengths.{IsUint32, weighted_lengths-shares}
use project_ariadne.Tui.Split.Cells.{IsScreen, IsDrawable, AllDrawable, axis-bound, child-IsScreen}
use project_ariadne.Tui.Resize.{
  LayoutAncestor, separators_of, next_offset, layout_path, path_among, node_at,
}
use project_ariadne.Tui.Resize.OneCell.{IsAncestor}

-- The splits of a layout: itself, and those of its children.
unfoldable mutual
  pub IsSplitIn : LayoutNode → LayoutNode → Type 0
  IsSplitIn node (pane p) = node ≡ pane p
  IsSplitIn node (split s d cs ws) = (node ≡ split s d cs ws) ⊎ IsSplitAmong node cs

  pub IsSplitAmong : LayoutNode → Nodes → Type 0
  IsSplitAmong node nil = true ≡ false
  IsSplitAmong node (cons c cs) = IsSplitIn node c ⊎ IsSplitAmong node cs

abbrev pub node_of : LayoutAncestor → LayoutNode
node_of a = split a.split_id a.direction a.children a.weights

-- An ancestor on the way to a pane of a layout: a split of it, whose child at the index shows the pane.
abbrev pub LeadsTo : LayoutNode → ℕ → LayoutAncestor → Type 0
LeadsTo layout p a =
    IsAncestor a
    × IsSplitIn (node_of a) layout
    × (layout_contains_pane p (node_at a.children a.child_index) ≡ true)

-- What holds of the ancestor whose children are walked, with the children `cs` left.
abbrev Walks : LayoutNode → LayoutAncestor → Nodes → Type 0
Walks layout here cs =
    IsSplitIn (node_of here) layout
    × All IsUint32 here.weights
    × IsScreen here.rect
    × (node_count here.children ≤ 4294967295)
    × (node_count here.children ≡ here.child_index + node_count cs)
    × ((j : ℕ) → node_at here.children (here.child_index + j) ≡ node_at cs j)

Walks-next :
    (layout : LayoutNode) (here : LayoutAncestor) (c : LayoutNode) (cs : Nodes)
    → Walks layout here (cons c cs)
    → Walks layout (record here { child_index = suc here.child_index }) cs
Walks-next layout here c cs (within, ws, screen, bound, count, nodes) = (
  within,
  ws,
  screen,
  bound,
  omega (arith, count),
  λ j. ap (node_at here.children) (omega arith) ∙ nodes (suc j),
)

Walks-leads :
    (layout : LayoutNode) (here : LayoutAncestor) (c : LayoutNode) (cs : Nodes) (p : ℕ)
    → Walks layout here (cons c cs)
    → layout_contains_pane p c ≡ true
    → LeadsTo layout p here
Walks-leads layout here c cs p (within, ws, screen, bound, count, nodes) shows = (
  (ws, omega (arith, count), bound, screen),
  within,
  ap (layout_contains_pane p) (ap (node_at here.children) (omega arith) ∙ nodes 0) ∙ shows,
)

-- The splits of a node that stands in the layout stand in the layout.
abbrev StandsIn : LayoutNode → LayoutNode → Type 0
StandsIn layout c = (node : LayoutNode) → IsSplitIn node c → IsSplitIn node layout

abbrev StandAmong : LayoutNode → Nodes → Type 0
StandAmong layout cs = (node : LayoutNode) → IsSplitAmong node cs → IsSplitIn node layout

mutual
  unfolding layout_path layout_contains_pane IsDrawable sum IsSplitIn

  pub layout_path-LeadsTo :
      (layout c : LayoutNode) (rect : Rect) (p : ℕ) (cells : Bool)
      (path found : List LayoutAncestor)
      → StandsIn layout c
      → IsDrawable c
      → IsScreen rect
      → (layout_contains_pane p c ≡ true → All (LeadsTo layout p) path)
      → layout_path c rect p cells path ≡ some found
      → All (LeadsTo layout p) found
  layout_path-LeadsTo layout (pane q) rect p cells path found i h s k e =
      subst (All (LeadsTo layout p)) (ground (arith, e)) (k (ground (arith, e)))
  layout_path-LeadsTo layout (split id d cs ws) rect p cells path found i h s k e =
      let separators = separators_of cells (node_count cs) (axis d rect) in
      let bound = axis-bound 0 0 d rect s in
      let (exact, one_each, total) =
        weighted_lengths-shares (axis d rect - separators) (node_count cs) ws h.0
          (omega (arith, bound)) h.1 h.2 in
      path_among-LeadsTo layout _ p cells path found separators 0 cs
        (weighted_lengths (axis d rect - separators) ws (node_count cs)) (λ node m. i node (inr m))
        h.3
        (
          i (split id d cs ws) (inl refl),
          h.0,
          s,
          h.2,
          omega arith,
          λ j. ap (node_at cs) (omega arith),
        )
        (omega (arith, total, bound)) k e

  path_among-LeadsTo :
      (layout : LayoutNode) (here : LayoutAncestor) (p : ℕ) (cells : Bool)
      (path found : List LayoutAncestor) (separators offset : ℕ) (cs : Nodes) (lengths : List ℕ)
      → StandAmong layout cs
      → AllDrawable cs
      → Walks layout here cs
      → sum lengths ≤ 4294967295
      → (nodes_contain_pane p cs ≡ true → All (LeadsTo layout p) path)
      → path_among here p cells path separators offset cs lengths ≡ some found
      → All (LeadsTo layout p) found
  path_among-LeadsTo layout here p cells path found separators offset nil lengths i h w b k e =
      ground (arith, e)
  path_among-LeadsTo layout here p cells path found separators offset (cons c cs) [] i h w b k e =
      ground (arith, e)
  path_among-LeadsTo layout here p cells path found separators offset (cons c cs) (l ∷ ls) i h w b k
        e =
      let rect = child_rect here.direction here.rect offset l in
      elim (Option-cases (layout_path c rect p cells (path ++ here ∷ []))) [
        | inl missed ↦
            path_among-LeadsTo layout (record here { child_index = suc here.child_index }) p cells
              path found separators (next_offset here.child_index separators offset l) cs ls
              (λ node m. i node (inr m)) h.1 (Walks-next layout here c cs w) (omega arith)
              (λ shows. k (ground (arith, shows))) (ground (arith, missed, e))
        | inr (deeper, r) ↦ subst (All (LeadsTo layout p)) (ground (arith, r, e)) (
            layout_path-LeadsTo layout c rect p cells (path ++ here ∷ []) deeper
              (λ node m. i node (inl m)) h.0
              (child-IsScreen 0 0 here.direction here.rect offset l w.2 (omega arith))
              (λ shows.
                All-snoc (LeadsTo layout p) path here (k (ground (arith, shows)))
                  (Walks-leads layout here c cs p w shows))
              r)
      ]
