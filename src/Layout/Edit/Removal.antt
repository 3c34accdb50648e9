-- ===== src/Layout/Edit/Removal.antt =====
-- What `removePaneFromLayout` leaves.
use project_ariadne.Base.{
  ℕ, ◌≡◌, refl, sym, ap, ap₂, ◌∙◌, Bool, true, false, ◌||◌, Option, none, some, List, [], ◌∷◌, ◌++◌,
  ◌==◌, nat_eq, string_eq, arith, contains, contains-append, without, without-append,
  without_absent, Bool-cases, Option-cases, inl, inr,
}
use project_ariadne.Layout.Tree.{
  SplitDirection, LayoutNode, pane, split, Nodes, nil, cons, panes, panes_of,
}
use project_ariadne.Layout.Edit.{
  Kept, keep, collapse, head_weight, rest_weights, remove_pane_from_layout,
  remove_pane_from_children, insert_split,
}
use mathlib.Core.List.{append-nil}
use project_ariadne.Layout.Edit.Insertion.{insert_beside, panes?, panes-insert_split}

-- The panes that a window shows; one without a layout shows none.
abbrev pub visible : Option LayoutNode → List ℕ
visible none = []
visible (some layout) = panes layout

visible-collapse :
    (s : ℕ) (d : SplitDirection) (cs : Nodes) (ws : List ℕ)
    → visible (collapse s d cs ws).0 ≡ panes_of cs
unfolding panes
visible-collapse s d nil ws = refl
visible-collapse s d (cons c nil) ws = sym (append-nil (panes c))
visible-collapse s d (cons c (cons c' cs)) ws = refl

removed-collapse :
    (s : ℕ) (d : SplitDirection) (cs : Nodes) (ws : List ℕ) → (collapse s d cs ws).1 ≡ true
removed-collapse s d nil ws = refl
removed-collapse s d (cons c nil) ws = refl
removed-collapse s d (cons c (cons c' cs)) ws = refl

panes-keep :
    (w : ℕ) (r : Option LayoutNode × Bool) (k : Kept)
    → panes_of (keep w r k).children ≡ visible r.0 ++ panes_of k.children
unfolding panes
panes-keep w (none, gone) k = refl
panes-keep w (some c, gone) k = refl

removed-keep :
    (w : ℕ) (r : Option LayoutNode × Bool) (k : Kept) → (keep w r k).removed ≡ (r.1 || k.removed)
removed-keep w (none, gone) k = refl
removed-keep w (some c, gone) k = refl

mutual
  unfolding remove_pane_from_layout panes contains without

  removal :
      (id : ℕ) (layout : LayoutNode)
      → (visible (remove_pane_from_layout id layout).0 ≡ without id (panes layout))
        × ((remove_pane_from_layout id layout).1 ≡ contains id (panes layout))
  removal id (pane p) = ground arith
  removal id (split s d cs ws) =
      let kept = remove_pane_from_children id cs ws in
      elim (Bool-cases kept.removed) [
        | inl gone ↦ rw gone (
          visible-collapse s d kept.children kept.weights ∙ (removal_among id cs ws).0,
          removed-collapse s d kept.children kept.weights ∙ sym gone ∙ (removal_among id cs ws).1,
        )
        | inr absent ↦ rw absent (
          sym (without_absent id (panes_of cs) (sym (removal_among id cs ws).1 ∙ absent)),
          sym absent ∙ (removal_among id cs ws).1,
        )
      ]

  removal_among :
      (id : ℕ) (cs : Nodes) (ws : List ℕ)
      → (panes_of (remove_pane_from_children id cs ws).children ≡ without id (panes_of cs))
        × ((remove_pane_from_children id cs ws).removed ≡ contains id (panes_of cs))
  removal_among id nil ws = (refl, refl)
  removal_among id (cons c cs) ws = (
    panes-keep (head_weight ws) (remove_pane_from_layout id c)
          (remove_pane_from_children id cs (rest_weights ws))
        ∙ ap₂ (◌++◌) (removal id c).0 (removal_among id cs (rest_weights ws)).0
        ∙ sym (without-append id (panes c) (panes_of cs)),
    removed-keep (head_weight ws) (remove_pane_from_layout id c)
          (remove_pane_from_children id cs (rest_weights ws))
        ∙ ap₂ (◌||◌) (removal id c).1 (removal_among id cs (rest_weights ws)).1
        ∙ sym (contains-append id (panes c) (panes_of cs)),
  )

-- `removePaneFromLayout` drops exactly the given pane, keeps the order of the others, and reports
-- whether the layout had shown it.
pub remove_pane_from_layout_lem :
    (id : ℕ) (layout : LayoutNode)
    → (visible (remove_pane_from_layout id layout).0 ≡ without id (panes layout))
      × ((remove_pane_from_layout id layout).1 ≡ contains id (panes layout))
remove_pane_from_layout_lem id layout = removal id layout

without-insert_beside :
    (before : Bool) (target id : ℕ) (xs ys : List ℕ)
    → contains id xs ≡ false
    → insert_beside before target id xs ≡ some ys
    → without id ys ≡ xs
unfolding insert_beside contains without
without-insert_beside before target id [] ys absent e = cc
without-insert_beside before target id (x ∷ xs) ys absent e = elim (Bool-cases (x == target)) [
  | inl hit ↦ elim (Bool-cases before) [
    | inl b ↦ ground (arith, without_absent id xs)
    | inr b ↦ ground (arith, without_absent id xs)
  ]
  | inr miss ↦ elim (Option-cases (insert_beside before target id xs)) [
    | inl gone ↦ ground arith
    | inr (zs, there) ↦ ground (arith, without-insert_beside before target id xs zs)
  ]
]

-- Removing a pane that `insertSplit` just put into a layout brings back the panes and their order.
pub remove_pane-insert_split :
    (target id : ℕ) (d : SplitDirection) (split_id : ℕ) (layout : LayoutNode) {wider : LayoutNode}
    → contains id (panes layout) ≡ false
    → insert_split target id d split_id layout ≡ some wider
    → visible (remove_pane_from_layout id wider).0 ≡ panes layout
remove_pane-insert_split target id d split_id layout {wider} absent e =
    (removal id wider).0
    ∙ without-insert_beside false target id (panes layout) (panes wider) absent
        (sym (panes-insert_split target id d split_id layout) ∙ ap panes? e)
