-- ===== src/Layout/Edit.antt =====
-- model.go and stash.go: insertion into a layout and removal from it.
pub mod Insertion
pub mod SplitIds
pub mod Removal
use project_ariadne.Base.{
  ℕ, zero, suc, Bool, true, false, ◌&&◌, ◌||◌, Option, none, some, List, [], ◌∷◌, ◌==◌,
  if◌then◌else◌, nat_eq, string_eq,
}
use project_ariadne.Layout.Tree.{
  SplitDirection, LayoutNode, pane, split, Nodes, nil, cons, pane_leaf, is_pane,
}
use project_ariadne.Layout.Weights.{split_weights_for_insertion}

-- How the loop over a split's children ended: a new sibling stands right after the child at an
-- index, or it went below a child, or the target is not there.
pub data Placed : Type 0 where
  sibling : ℕ → Nodes → Placed
  nested : Nodes → Placed
  missed : Placed

abbrev pub behind : LayoutNode → Placed → Placed
behind c (sibling index cs) = sibling (suc index) (cons c cs)
behind c (nested cs) = nested (cons c cs)
behind c missed = missed

abbrev pub placed_or : LayoutNode → Nodes → Option LayoutNode → Placed → Placed
placed_or c cs (some c') rest = nested (cons c' cs)
placed_or c cs none rest = behind c rest

abbrev pub with_split_weights : ℕ → SplitDirection → List ℕ → Placed → Option LayoutNode
with_split_weights s d ws (sibling index cs) =
    some (split s d cs (split_weights_for_insertion ws index))
with_split_weights s d ws (nested cs) = some (split s d cs ws)
with_split_weights s d ws missed = none

-- `insertSplit(node, target, inserted, direction, splitID)`.
unfoldable mutual
  pub insert_split : ℕ → ℕ → SplitDirection → ℕ → LayoutNode → Option LayoutNode
  insert_split target inserted direction split_id (pane p) =
      if p == target
      then some (
          split split_id direction (cons (pane_leaf target) (cons (pane_leaf inserted) nil))
            (1 ∷ 1 ∷ []))
      else none
  insert_split target inserted direction split_id (split s d cs ws) =
      with_split_weights s d ws
        (insert_split_children target inserted direction split_id (d == direction) cs)

  pub insert_split_children : ℕ → ℕ → SplitDirection → ℕ → Bool → Nodes → Placed
  insert_split_children target inserted direction split_id same nil = missed
  insert_split_children target inserted direction split_id same (cons c cs) =
      if is_pane target c && same
      then sibling 0 (cons c (cons (pane_leaf inserted) cs))
      else placed_or c cs (insert_split target inserted direction split_id c)
          (insert_split_children target inserted direction split_id same cs)

-- `insertionRequiresSplit(node, target, direction)`: whether a new split is required, and whether
-- the target was found.
abbrev pub or_found : Bool × Bool → Bool × Bool → Bool × Bool
or_found (required, true) rest = (required, true)
or_found (required, false) rest = rest

unfoldable mutual
  pub insertion_requires_split : ℕ → SplitDirection → LayoutNode → Bool × Bool
  insertion_requires_split target direction (pane p) = (true, p == target)
  insertion_requires_split target direction (split s d cs ws) =
      children_require_split target direction (d == direction) cs

  pub children_require_split : ℕ → SplitDirection → Bool → Nodes → Bool × Bool
  children_require_split target direction same nil = (false, false)
  children_require_split target direction same (cons c cs) =
      if is_pane target c && same
      then (false, true)
      else or_found (insertion_requires_split target direction c)
          (children_require_split target direction same cs)

-- The weight of a child; reading past the end panics in the source, and is 0 here.
abbrev pub head_weight : List ℕ → ℕ
head_weight [] = 0
head_weight (w ∷ ws) = w

abbrev pub rest_weights : List ℕ → List ℕ
rest_weights [] = []
rest_weights (w ∷ ws) = ws

-- The children and weights that the loop of `removePaneFromLayout` keeps, and whether it removed.
pub record Kept : Type 0 where
  pub children : Nodes
  pub weights : List ℕ
  pub removed : Bool

abbrev pub keep : ℕ → Option LayoutNode × Bool → Kept → Kept
keep w (none, gone) rest = record rest { removed = gone || rest.removed }
keep w (some c, gone) rest = record {
  children = cons c rest.children;
  weights = w ∷ rest.weights;
  removed = gone || rest.removed;
}

-- A split that lost all children but one gives way to that one.
abbrev pub collapse : ℕ → SplitDirection → Nodes → List ℕ → Option LayoutNode × Bool
collapse s d nil ws = (none, true)
collapse s d (cons c nil) ws = (some c, true)
collapse s d (cons c (cons c' cs)) ws = (some (split s d (cons c (cons c' cs)) ws), true)

abbrev pub after_removal : ℕ → SplitDirection → Nodes → List ℕ → Kept → Option LayoutNode × Bool
after_removal s d cs ws kept =
    if kept.removed
    then collapse s d kept.children kept.weights
    else (some (split s d cs ws), false)

unfoldable mutual
  pub remove_pane_from_layout : ℕ → LayoutNode → Option LayoutNode × Bool
  remove_pane_from_layout id (pane p) = if p == id then (none, true) else (some (pane p), false)
  remove_pane_from_layout id (split s d cs ws) =
      after_removal s d cs ws (remove_pane_from_children id cs ws)

  pub remove_pane_from_children : ℕ → Nodes → List ℕ → Kept
  remove_pane_from_children id nil ws = record { children = nil; weights = []; removed = false }
  remove_pane_from_children id (cons c cs) ws =
      keep (head_weight ws) (remove_pane_from_layout id c)
        (remove_pane_from_children id cs (rest_weights ws))

-- `insertRelative`: the new sibling stands before or after the target, with a weight of its own.
-- Outside the list `copy` panics in the source; here the weight goes to the end.
unfoldable pub insert_weight : ℕ → ℕ → List ℕ → List ℕ
insert_weight w zero ws = w ∷ ws
insert_weight w (suc index) [] = w ∷ []
insert_weight w (suc index) (v ∷ ws) = v ∷ insert_weight w index ws

abbrev pub with_weight_at : ℕ → SplitDirection → List ℕ → Bool → ℕ → Placed → Option LayoutNode
with_weight_at s d ws before weight (sibling index cs) =
    some (split s d cs (insert_weight weight (if before then index else suc index) ws))
with_weight_at s d ws before weight (nested cs) = some (split s d cs ws)
with_weight_at s d ws before weight missed = none

abbrev pub relative_pair : ℕ → ℕ → Bool → Nodes → Nodes
relative_pair target inserted true rest = cons (pane_leaf inserted) (cons (pane_leaf target) rest)
relative_pair target inserted false rest = cons (pane_leaf target) (cons (pane_leaf inserted) rest)

unfoldable mutual
  pub insert_relative : ℕ → ℕ → SplitDirection → Bool → ℕ → ℕ → ℕ → LayoutNode → Option LayoutNode
  insert_relative target inserted direction before weight target_weight split_id (pane p) =
      if p == target
      then some (
          split split_id direction (relative_pair target inserted before nil)
            (if before then weight ∷ target_weight ∷ [] else target_weight ∷ weight ∷ []))
      else none
  insert_relative target inserted direction before weight target_weight split_id (split s d cs ws) =
      with_weight_at s d ws before weight (
        insert_relative_children target inserted direction before weight target_weight split_id
          (d == direction) cs)

  pub insert_relative_children : ℕ → ℕ → SplitDirection → Bool → ℕ → ℕ → ℕ → Bool → Nodes → Placed
  insert_relative_children target inserted direction before weight target_weight split_id same nil =
      missed
  insert_relative_children target inserted direction before weight target_weight split_id same
        (cons c cs) =
      if is_pane target c && same
      then sibling 0 (relative_pair target inserted before cs)
      else placed_or c cs
          (insert_relative target inserted direction before weight target_weight split_id c)
          (insert_relative_children target inserted direction before weight target_weight split_id
            same cs)

-- `splitByID`: the first split of that ID, from the top and the left.
abbrev pub or_else : Option LayoutNode → Option LayoutNode → Option LayoutNode
or_else (some a) rest = some a
or_else none rest = rest

unfoldable mutual
  pub split_by_id : ℕ → LayoutNode → Option LayoutNode
  split_by_id id (pane p) = none
  split_by_id id (split s d cs ws) = if s == id then some (split s d cs ws) else split_among id cs

  pub split_among : ℕ → Nodes → Option LayoutNode
  split_among id nil = none
  split_among id (cons c cs) = or_else (split_by_id id c) (split_among id cs)

-- The assignment `split.Weights = weights` of `resizeSplit` through the pointer that `splitByID`
-- found; `none` if there is no such split.
abbrev pub nodes_or : LayoutNode → Nodes → Option LayoutNode → Option Nodes → Option Nodes
nodes_or c cs (some c') rest = some (cons c' cs)
nodes_or c cs none (some cs') = some (cons c cs')
nodes_or c cs none none = none

abbrev pub with_children : ℕ → SplitDirection → List ℕ → Option Nodes → Option LayoutNode
with_children s d ws none = none
with_children s d ws (some cs) = some (split s d cs ws)

unfoldable mutual
  pub set_split_weights : ℕ → List ℕ → LayoutNode → Option LayoutNode
  set_split_weights id weights (pane p) = none
  set_split_weights id weights (split s d cs ws) =
      if s == id
      then some (split s d cs weights)
      else with_children s d ws (set_weights_among id weights cs)

  pub set_weights_among : ℕ → List ℕ → Nodes → Option Nodes
  set_weights_among id weights nil = none
  set_weights_among id weights (cons c cs) =
      nodes_or c cs (set_split_weights id weights c) (set_weights_among id weights cs)
