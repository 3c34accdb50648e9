-- ===== src/Layout/Validate/Sound.antt =====
-- What `validateLayout` asks of every split of a layout.
use project_ariadne.Base.{
  ℕ, ◌≤◌, ◌≡◌, true, Option, none, some, List, nat_eq, string_eq, length, All,
}
use project_ariadne.Layout.Tree.{
  SplitDirection, LayoutNode, pane, split, Nodes, nil, cons, node_count, valid_direction,
}
use project_ariadne.Layout.Weights.Bounds.{IsWeight}

-- What holds of every split: a valid direction, two children or more, and as many weights, each a
-- uint32 of at least 1.
abbrev pub IsSplit : SplitDirection → ℕ → List ℕ → Type 0
IsSplit d n ws = (valid_direction d ≡ true) × (2 ≤ n) × (n ≡ length ws) × All IsWeight ws

unfoldable mutual
  pub IsSound : LayoutNode → Type 0
  IsSound (pane p) = Unit
  IsSound (split s d cs ws) = IsSplit d (node_count cs) ws × AllSound cs

  pub AllSound : Nodes → Type 0
  AllSound nil = Unit
  AllSound (cons c cs) = IsSound c × AllSound cs

abbrev pub Sound? : Option LayoutNode → Type 0
Sound? none = Unit
Sound? (some layout) = IsSound layout
