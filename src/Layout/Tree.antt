-- ===== src/Layout/Tree.antt =====
-- The type of layouts, and what is read off a layout.
use project_ariadne.Base.{
  ℕ, suc, String, Bool, false, ◌||◌, List, [], ◌∷◌, ◌++◌, ◌==◌, ltb, if◌then◌else◌, nat_eq,
  string_eq,
}

-- Directions are strings; only two are valid, and "" stands for none.
abbrev pub SplitDirection : Type 0
SplitDirection = String

abbrev pub split_horizontal : SplitDirection
split_horizontal = "horizontal"

abbrev pub split_vertical : SplitDirection
split_vertical = "vertical"

unfoldable pub valid_direction : SplitDirection → Bool
valid_direction direction = direction == split_horizontal || direction == split_vertical

-- `split id direction children weights`.
mutual
  pub data LayoutNode : Type 0 where
    pane : ℕ → LayoutNode
    split : ℕ → SplitDirection → Nodes → List ℕ → LayoutNode

  pub data Nodes : Type 0 where
    nil : Nodes
    cons : LayoutNode → Nodes → Nodes

abbrev pub pane_leaf : ℕ → LayoutNode
pane_leaf id = pane id

-- `child.Kind == LayoutPane && child.PaneID == id`.
abbrev pub is_pane : ℕ → LayoutNode → Bool
is_pane id (pane p) = p == id
is_pane id (split s d cs ws) = false

abbrev pub node_count : Nodes → ℕ
node_count nil = 0
node_count (cons c cs) = suc (node_count cs)

-- The pane that takes the focus; 0 if a split has no child.
unfoldable pub first_pane : LayoutNode → ℕ
first_pane (pane p) = p
first_pane (split s d nil ws) = 0
first_pane (split s d (cons c cs) ws) = first_pane c

unfoldable mutual
  pub layout_contains_pane : ℕ → LayoutNode → Bool
  layout_contains_pane id (pane p) = p == id
  layout_contains_pane id (split s d cs ws) = nodes_contain_pane id cs

  pub nodes_contain_pane : ℕ → Nodes → Bool
  nodes_contain_pane id nil = false
  nodes_contain_pane id (cons c cs) = layout_contains_pane id c || nodes_contain_pane id cs

-- The greatest split ID of a tree, or `maximum` if that is greater.
unfoldable mutual
  pub visit_split_ids : ℕ → LayoutNode → ℕ
  visit_split_ids maximum (pane p) = maximum
  visit_split_ids maximum (split s d cs ws) =
      visit_children_ids (if ltb maximum s then s else maximum) cs

  pub visit_children_ids : ℕ → Nodes → ℕ
  visit_children_ids maximum nil = maximum
  visit_children_ids maximum (cons c cs) = visit_children_ids (visit_split_ids maximum c) cs

-- Specification: the panes of a tree and its split IDs, from left to right.
unfoldable mutual
  pub panes : LayoutNode → List ℕ
  panes (pane p) = p ∷ []
  panes (split s d cs ws) = panes_of cs

  pub panes_of : Nodes → List ℕ
  panes_of nil = []
  panes_of (cons c cs) = panes c ++ panes_of cs

unfoldable mutual
  pub split_ids : LayoutNode → List ℕ
  split_ids (pane p) = []
  split_ids (split s d cs ws) = s ∷ split_ids_of cs

  pub split_ids_of : Nodes → List ℕ
  split_ids_of nil = []
  split_ids_of (cons c cs) = split_ids c ++ split_ids_of cs
