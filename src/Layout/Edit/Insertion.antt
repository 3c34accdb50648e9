-- ===== src/Layout/Edit/Insertion.antt =====
-- Where `insertSplit` and `insertRelative` put a pane, and when a split ID is used up.
use project_ariadne.Base.{
  ℕ, ◌≡◌, refl, sym, ap, ap₂, Bool, true, false, ◌&&◌, Option, none, some, List, [], ◌∷◌, ◌++◌, ◌∙◌,
  ◌==◌, if◌then◌else◌, nat_eq, string_eq, arith, Bool-cases, inl, inr,
}
use project_ariadne.Layout.Tree.{
  SplitDirection, LayoutNode, pane, split, Nodes, nil, cons, is_pane, panes, panes_of,
}
use project_ariadne.Layout.Edit.{
  Placed, sibling, nested, missed, insert_split, insert_split_children, insert_relative,
  insert_relative_children, placed_or, with_split_weights, with_weight_at, relative_pair,
}

-- The specification: the new pane stands right after, or right before, the first occurrence of the
-- target; there is none without the target.
abbrev pub beside : Bool → ℕ → ℕ → List ℕ → List ℕ
beside true x inserted xs = inserted ∷ x ∷ xs
beside false x inserted xs = x ∷ inserted ∷ xs

abbrev pub cons_to : ℕ → Option (List ℕ) → Option (List ℕ)
cons_to x none = none
cons_to x (some xs) = some (x ∷ xs)

unfoldable pub insert_beside : Bool → ℕ → ℕ → List ℕ → Option (List ℕ)
insert_beside before target inserted [] = none
insert_beside before target inserted (x ∷ xs) =
    let rest = insert_beside before target inserted xs in
    if x == target then some (beside before x inserted xs) else cons_to x rest

abbrev pub append_or : List ℕ → List ℕ → Option (List ℕ) → Option (List ℕ) → Option (List ℕ)
append_or xs ys (some zs) rest = some (zs ++ ys)
append_or xs ys none (some zs) = some (xs ++ zs)
append_or xs ys none none = none

cons_to-append_or :
    (x : ℕ) (xs ys : List ℕ) (a b : Option (List ℕ))
    → cons_to x (append_or xs ys a b) ≡ append_or (x ∷ xs) ys (cons_to x a) b
cons_to-append_or x xs ys none none = refl
cons_to-append_or x xs ys none (some b) = refl
cons_to-append_or x xs ys (some a) b = refl

insert_beside-append :
    (before : Bool) (target inserted : ℕ) (xs ys : List ℕ)
    → insert_beside before target inserted (xs ++ ys)
      ≡ append_or xs ys
          (insert_beside before target inserted xs)
          (insert_beside before target inserted ys)
unfolding insert_beside
insert_beside-append before target inserted [] ys =
    elim (insert_beside before target inserted ys) as (λ o. o ≡ append_or [] ys none o) [
      | none ↦ refl
      | some zs ↦ refl
    ]
insert_beside-append before target inserted (x ∷ xs) ys = ground (
  arith,
  insert_beside-append before target inserted xs ys,
  cons_to-append_or x xs ys (insert_beside before target inserted xs)
      (insert_beside before target inserted ys),
)

-- The panes of the outcome of an insertion.
abbrev pub panes? : Option LayoutNode → Option (List ℕ)
panes? none = none
panes? (some layout) = some (panes layout)

abbrev placed_panes : Placed → Option (List ℕ)
placed_panes (sibling index cs) = some (panes_of cs)
placed_panes (nested cs) = some (panes_of cs)
placed_panes missed = none

panes-with_split_weights :
    (s : ℕ) (d : SplitDirection) (ws : List ℕ) (r : Placed)
    → panes? (with_split_weights s d ws r) ≡ placed_panes r
unfolding panes
panes-with_split_weights s d ws (sibling k cs) = refl
panes-with_split_weights s d ws (nested cs) = refl
panes-with_split_weights s d ws missed = refl

panes-placed_or :
    (c : LayoutNode) (cs : Nodes) (a : Option LayoutNode) (r : Placed)
    → placed_panes (placed_or c cs a r)
      ≡ append_or (panes c) (panes_of cs) (panes? a) (placed_panes r)
unfolding panes
panes-placed_or c cs (some c') r = refl
panes-placed_or c cs none (sibling k cs') = refl
panes-placed_or c cs none (nested cs') = refl
panes-placed_or c cs none missed = refl

panes_leaf : (target : ℕ) (c : LayoutNode) → is_pane target c ≡ true → panes c ≡ target ∷ []
unfolding panes
panes_leaf target (pane p) h = ground arith
panes_leaf target (split s d cs ws) h = cc

insert_beside_head :
    (before : Bool) (target inserted : ℕ) (ys : List ℕ)
    → insert_beside before target inserted (target ∷ ys) ≡ some (beside before target inserted ys)
unfolding insert_beside
insert_beside_head before target inserted ys = ground arith

mutual
  unfolding insert_split insert_beside panes

  panes-insert_split? :
      (target inserted : ℕ) (d : SplitDirection) (id : ℕ) (layout : LayoutNode)
      → panes? (insert_split target inserted d id layout)
        ≡ insert_beside false target inserted (panes layout)
  panes-insert_split? target inserted d id (pane p) = ground arith
  panes-insert_split? target inserted d id (split s e cs ws) =
      panes-with_split_weights s e ws (insert_split_children target inserted d id (e == d) cs)
      ∙ panes-insert_split_children target inserted d id (e == d) cs

  panes-insert_split_children :
      (target inserted : ℕ) (d : SplitDirection) (id : ℕ) (same : Bool) (cs : Nodes)
      → placed_panes (insert_split_children target inserted d id same cs)
        ≡ insert_beside false target inserted (panes_of cs)
  panes-insert_split_children target inserted d id same nil = refl
  panes-insert_split_children target inserted d id same (cons c cs) =
      elim (Bool-cases (is_pane target c && same)) [
        | inl here ↦
            rw (here, panes_leaf target c (ground arith))
              (sym (insert_beside_head false target inserted (panes_of cs)))
        | inr there ↦ rw there (
            panes-placed_or c cs (insert_split target inserted d id c)
              (insert_split_children target inserted d id same cs)
            ∙ ap₂ (append_or (panes c) (panes_of cs)) (panes-insert_split? target inserted d id c)
                (panes-insert_split_children target inserted d id same cs)
            ∙ sym (insert_beside-append false target inserted (panes c) (panes_of cs)))
      ]

panes-with_weight_at :
    (s : ℕ) (d : SplitDirection) (ws : List ℕ) (before : Bool) (w : ℕ) (r : Placed)
    → panes? (with_weight_at s d ws before w r) ≡ placed_panes r
unfolding panes
panes-with_weight_at s d ws before w (sibling k cs) = refl
panes-with_weight_at s d ws before w (nested cs) = refl
panes-with_weight_at s d ws before w missed = refl

panes-relative_pair :
    (before : Bool) (target inserted : ℕ) (cs : Nodes)
    → panes_of (relative_pair target inserted before cs)
      ≡ beside before target inserted (panes_of cs)
unfolding panes
panes-relative_pair true target inserted cs = refl
panes-relative_pair false target inserted cs = refl

mutual
  unfolding insert_relative insert_beside panes

  panes-insert_relative? :
      (target inserted : ℕ) (d : SplitDirection) (before : Bool) (w tw id : ℕ) (layout : LayoutNode)
      → panes? (insert_relative target inserted d before w tw id layout)
        ≡ insert_beside before target inserted (panes layout)
  panes-insert_relative? target inserted d before w tw id (pane p) = ground arith
  panes-insert_relative? target inserted d before w tw id (split s e cs ws) =
      panes-with_weight_at s e ws before w
        (insert_relative_children target inserted d before w tw id (e == d) cs)
      ∙ panes-insert_relative_children target inserted d before w tw id (e == d) cs

  panes-insert_relative_children :
      (target inserted : ℕ) (d : SplitDirection) (before : Bool) (w tw id : ℕ) (same : Bool)
      (cs : Nodes)
      → placed_panes (insert_relative_children target inserted d before w tw id same cs)
        ≡ insert_beside before target inserted (panes_of cs)
  panes-insert_relative_children target inserted d before w tw id same nil = refl
  panes-insert_relative_children target inserted d before w tw id same (cons c cs) =
      elim (Bool-cases (is_pane target c && same)) [
        | inl here ↦
            rw (here, panes_leaf target c (ground arith))
              (ap some (panes-relative_pair before target inserted cs)
                ∙ sym (insert_beside_head before target inserted (panes_of cs)))
        | inr there ↦ rw there (
            panes-placed_or c cs (insert_relative target inserted d before w tw id c)
              (insert_relative_children target inserted d before w tw id same cs)
            ∙ ap₂ (append_or (panes c) (panes_of cs))
                (panes-insert_relative? target inserted d before w tw id c)
                (panes-insert_relative_children target inserted d before w tw id same cs)
            ∙ sym (insert_beside-append before target inserted (panes c) (panes_of cs)))
      ]

-- `insertSplit` reaches exactly the layouts that show the target, and then the panes are the old
-- ones with the new pane right after the target.
pub panes-insert_split :
    (target inserted : ℕ) (d : SplitDirection) (id : ℕ) (layout : LayoutNode)
    → panes? (insert_split target inserted d id layout)
      ≡ insert_beside false target inserted (panes layout)
panes-insert_split target inserted d id layout = panes-insert_split? target inserted d id layout

-- `insertRelative` reaches exactly the layouts that show the target, and then the panes are the old
-- ones with the new pane right before or right after the target, as `before` says.
pub panes-insert_relative :
    (target inserted : ℕ) (d : SplitDirection) (before : Bool) (w tw id : ℕ) (layout : LayoutNode)
    → panes? (insert_relative target inserted d before w tw id layout)
      ≡ insert_beside before target inserted (panes layout)
panes-insert_relative target inserted d before w tw id layout =
    panes-insert_relative? target inserted d before w tw id layout
