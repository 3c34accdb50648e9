-- ===== src/Layout/Edit/SplitIds.antt =====
-- `insertionRequiresSplit` says beforehand what `insertSplit` and `insertRelative` will do.
use project_ariadne.Base.{
  ℕ, suc, ◌+◌, ◌≡◌, refl, sym, ap, ap₂, ◌∙◌, Bool, true, false, ◌&&◌, Option, none, some, List,
  ◌==◌, if◌then◌else◌, nat_eq, string_eq, arith, count, count-append, Bool-cases, inl, inr,
}
use project_ariadne.Layout.Tree.{
  SplitDirection, LayoutNode, pane, split, Nodes, nil, cons, is_pane, split_ids, split_ids_of,
}
use project_ariadne.Layout.Edit.{
  Placed, sibling, nested, missed, insert_split, insert_split_children, insertion_requires_split,
  children_require_split, insert_relative, insert_relative_children, placed_or, with_split_weights,
  or_found, with_weight_at, relative_pair,
}

-- How often a split ID occurs in the outcome of an insertion.
abbrev pub ids? : ℕ → Option LayoutNode → Option ℕ
ids? k none = none
ids? k (some layout) = some (count k (split_ids layout))

abbrev placed_ids : ℕ → Placed → Option ℕ
placed_ids k (sibling index cs) = some (count k (split_ids_of cs))
placed_ids k (nested cs) = some (count k (split_ids_of cs))
placed_ids k missed = none

abbrev pub one_if : Bool → ℕ
one_if true = 1
one_if false = 0

-- What the answer of `insertionRequiresSplit` promises, of an ID that occurred `n` times.
abbrev pub promised : ℕ → ℕ → ℕ → Bool × Bool → Option ℕ
promised k id n (required, true) = some (n + one_if (required && id == k))
promised k id n (required, false) = none

abbrev add_or : ℕ → ℕ → Option ℕ → Option ℕ → Option ℕ
add_or m n (some m') rest = some (m' + n)
add_or m n none (some n') = some (m + n')
add_or m n none none = none

ids-placed_or :
    (k : ℕ) (c : LayoutNode) (cs : Nodes) (a : Option LayoutNode) (r : Placed)
    → placed_ids k (placed_or c cs a r)
      ≡ add_or (count k (split_ids c)) (count k (split_ids_of cs)) (ids? k a) (placed_ids k r)
unfolding split_ids
ids-placed_or k c cs (some c') r = ap some (count-append k (split_ids c') (split_ids_of cs))
ids-placed_or k c cs none (sibling j cs') =
    ap some (count-append k (split_ids c) (split_ids_of cs'))
ids-placed_or k c cs none (nested cs') = ap some (count-append k (split_ids c) (split_ids_of cs'))
ids-placed_or k c cs none missed = refl

promised-or_found :
    (k id m n : ℕ) (p q : Bool × Bool)
    → promised k id (m + n) (or_found p q) ≡ add_or m n (promised k id m p) (promised k id n q)
promised-or_found k id m n (p, true) (q, f) = ap some (omega arith)
promised-or_found k id m n (p, false) (q, true) = ap some (omega arith)
promised-or_found k id m n (p, false) (q, false) = refl

leaf_ids :
    (k target : ℕ) (c : LayoutNode) (cs : Nodes)
    → is_pane target c ≡ true
    → count k (split_ids_of (cons c cs)) ≡ count k (split_ids_of cs)
unfolding split_ids count
leaf_ids k target (pane p) cs h = refl
leaf_ids k target (split s d cs' ws) cs h = cc

abbrev count_head : ℕ → ℕ → Option ℕ → Option ℕ
count_head k s none = none
count_head k s (some n) = some (if s == k then suc n else n)

promised_head :
    (k id s n : ℕ) (p : Bool × Bool)
    → count_head k s (promised k id n p) ≡ promised k id (if s == k then suc n else n) p
promised_head k id s n (p, true) = ground arith
promised_head k id s n (p, false) = refl

ids-with_split_weights :
    (k s : ℕ) (d : SplitDirection) (ws : List ℕ) (r : Placed)
    → ids? k (with_split_weights s d ws r) ≡ count_head k s (placed_ids k r)
unfolding split_ids count
ids-with_split_weights k s d ws (sibling j cs) = refl
ids-with_split_weights k s d ws (nested cs) = refl
ids-with_split_weights k s d ws missed = refl

ids-with_weight_at :
    (k s : ℕ) (d : SplitDirection) (ws : List ℕ) (before : Bool) (w : ℕ) (r : Placed)
    → ids? k (with_weight_at s d ws before w r) ≡ count_head k s (placed_ids k r)
unfolding split_ids count
ids-with_weight_at k s d ws before w (sibling j cs) = refl
ids-with_weight_at k s d ws before w (nested cs) = refl
ids-with_weight_at k s d ws before w missed = refl

mutual
  unfolding insert_split insertion_requires_split split_ids count

  ids-insert_split? :
      (k target inserted : ℕ) (d : SplitDirection) (id : ℕ) (layout : LayoutNode)
      → ids? k (insert_split target inserted d id layout)
        ≡ promised k id (count k (split_ids layout)) (insertion_requires_split target d layout)
  ids-insert_split? k target inserted d id (pane p) = ground arith
  ids-insert_split? k target inserted d id (split s e cs ws) =
      ids-with_split_weights k s e ws (insert_split_children target inserted d id (e == d) cs)
      ∙ ap (count_head k s) (ids-insert_split_children k target inserted d id (e == d) cs)
      ∙ promised_head k id s (count k (split_ids_of cs))
          (children_require_split target d (e == d) cs)

  ids-insert_split_children :
      (k target inserted : ℕ) (d : SplitDirection) (id : ℕ) (same : Bool) (cs : Nodes)
      → placed_ids k (insert_split_children target inserted d id same cs)
        ≡ promised k id (count k (split_ids_of cs)) (children_require_split target d same cs)
  ids-insert_split_children k target inserted d id same nil = refl
  ids-insert_split_children k target inserted d id same (cons c cs) =
      elim (Bool-cases (is_pane target c && same)) [
        | inl here ↦ rw here (
            ground (
              arith,
              leaf_ids k target c cs (ground arith),
              leaf_ids k target c (cons (pane inserted) cs) (ground arith),
            ))
        | inr there ↦ rw there (
            ids-placed_or k c cs (insert_split target inserted d id c)
              (insert_split_children target inserted d id same cs)
            ∙ ap₂ (add_or (count k (split_ids c)) (count k (split_ids_of cs)))
                (ids-insert_split? k target inserted d id c)
                (ids-insert_split_children k target inserted d id same cs)
            ∙ sym (
                promised-or_found k id (count k (split_ids c)) (count k (split_ids_of cs))
                  (insertion_requires_split target d c) (children_require_split target d same cs))
            ∙ ap
                (λ (n : ℕ). promised k id n (
                  or_found (insertion_requires_split target d c)
                    (children_require_split target d same cs)))
                (sym (count-append k (split_ids c) (split_ids_of cs))))
      ]

relative_ids :
    (k : ℕ) (before : Bool) (target inserted : ℕ) (cs : Nodes)
    → count k (split_ids_of (relative_pair target inserted before cs)) ≡ count k (split_ids_of cs)
unfolding split_ids count
relative_ids k true target inserted cs = refl
relative_ids k false target inserted cs = refl

mutual
  unfolding insert_relative insertion_requires_split split_ids count

  ids-insert_relative? :
      (k target inserted : ℕ) (d : SplitDirection) (before : Bool) (w tw id : ℕ)
      (layout : LayoutNode)
      → ids? k (insert_relative target inserted d before w tw id layout)
        ≡ promised k id (count k (split_ids layout)) (insertion_requires_split target d layout)
  ids-insert_relative? k target inserted d before w tw id (pane p) =
      ground (arith, relative_ids k before target inserted nil)
  ids-insert_relative? k target inserted d before w tw id (split s e cs ws) =
      ids-with_weight_at k s e ws before w
        (insert_relative_children target inserted d before w tw id (e == d) cs)
      ∙ ap (count_head k s)
          (ids-insert_relative_children k target inserted d before w tw id (e == d) cs)
      ∙ promised_head k id s (count k (split_ids_of cs))
          (children_require_split target d (e == d) cs)

  ids-insert_relative_children :
      (k target inserted : ℕ) (d : SplitDirection) (before : Bool) (w tw id : ℕ) (same : Bool)
      (cs : Nodes)
      → placed_ids k (insert_relative_children target inserted d before w tw id same cs)
        ≡ promised k id (count k (split_ids_of cs)) (children_require_split target d same cs)
  ids-insert_relative_children k target inserted d before w tw id same nil = refl
  ids-insert_relative_children k target inserted d before w tw id same (cons c cs) =
      elim (Bool-cases (is_pane target c && same)) [
        | inl here ↦ rw here (
            ground (
              arith,
              leaf_ids k target c cs (ground arith),
              relative_ids k before target inserted cs,
            ))
        | inr there ↦ rw there (
            ids-placed_or k c cs (insert_relative target inserted d before w tw id c)
              (insert_relative_children target inserted d before w tw id same cs)
            ∙ ap₂ (add_or (count k (split_ids c)) (count k (split_ids_of cs)))
                (ids-insert_relative? k target inserted d before w tw id c)
                (ids-insert_relative_children k target inserted d before w tw id same cs)
            ∙ sym (
                promised-or_found k id (count k (split_ids c)) (count k (split_ids_of cs))
                  (insertion_requires_split target d c) (children_require_split target d same cs))
            ∙ ap
                (λ (n : ℕ). promised k id n (
                  or_found (insertion_requires_split target d c)
                    (children_require_split target d same cs)))
                (sym (count-append k (split_ids c) (split_ids_of cs))))
      ]

-- Both insertions fail exactly where `insertionRequiresSplit` does not find the target. Else every
-- split ID occurs as often as before, and the given one once more exactly if a split is required.
pub insertions_keep_promise :
    (k target inserted : ℕ) (d : SplitDirection) (before : Bool) (w tw id : ℕ) (layout : LayoutNode)
    → let promise =
        promised k id (count k (split_ids layout)) (insertion_requires_split target d layout) in
      (ids? k (insert_split target inserted d id layout) ≡ promise)
      × (ids? k (insert_relative target inserted d before w tw id layout) ≡ promise)
insertions_keep_promise k target inserted d before w tw id layout = (
  ids-insert_split? k target inserted d id layout,
  ids-insert_relative? k target inserted d before w tw id layout,
)
