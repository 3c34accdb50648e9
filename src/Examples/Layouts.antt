-- ===== src/Examples/Layouts.antt =====
-- The theorems on layouts (model.go) at a layout of three panes.
use project_ariadne.Base.{
  ℕ, suc, ◌+◌, ◌*◌, ◌/◌, ◌≡◌, ◌≤◌, ◌<◌, refl, true, false, List, [], ◌∷◌, Option, none, some,
  length, All, contains, count, without, sum, nat_eq, arith, if◌then◌else◌,
}
use project_ariadne.Layout.Tree.{
  LayoutNode, pane, split, nil, cons, split_horizontal, split_vertical, panes, split_ids,
  valid_direction,
}
use project_ariadne.Layout.Weights.{
  max_uint32, can_double, normalize, normalize_rounds, halve_weight, split_weights_for_insertion,
}
use project_ariadne.Layout.Weights.Bounds.{
  IsWeight, Shares, split_weights_for_insertion_bounds, split_weights-Shares, halve_weight_wraps,
}
use project_ariadne.Layout.Edit.{
  insert_split, insert_relative, remove_pane_from_layout, insertion_requires_split,
}
use project_ariadne.Layout.Edit.Insertion.{
  panes?, insert_beside, panes-insert_split, panes-insert_relative,
}
use project_ariadne.Layout.Edit.SplitIds.{ids?, promised, insertions_keep_promise}
use project_ariadne.Layout.Edit.Removal.{
  visible, remove_pane_from_layout_lem, remove_pane-insert_split,
}
use project_ariadne.Layout.Validate.{validate_layout}
use project_ariadne.Layout.Validate.Exact.{
  well_shaped, collect, visit_all, combined, validate_layout-exact,
}
use project_ariadne.Layout.Validate.Sound.{IsSound, Sound?}
use project_ariadne.Layout.Validate.Kept.{edits_sound}

-- Panes 1 and 2 beside each other, and 3 below the second.
abbrev three : LayoutNode
three =
    split 1 split_vertical
      (cons (pane 1)
        (cons (split 2 split_horizontal (cons (pane 2) (cons (pane 3) nil)) (1 ∷ 1 ∷ [])) nil))
      (2 ∷ 1 ∷ [])

abbrev three_and_four : LayoutNode
three_and_four =
    split 1 split_vertical
      (cons (pane 1) (
        cons (pane 4)
          (cons (split 2 split_horizontal (cons (pane 2) (cons (pane 3) nil)) (1 ∷ 1 ∷ [])) nil)))
      (2 ∷ 2 ∷ 2 ∷ [])

panes-insert_split_example :
    panes? (insert_split 2 4 split_vertical 3 three) ≡ insert_beside false 2 4 (panes three)
panes-insert_split_example = panes-insert_split 2 4 split_vertical 3 three

panes-insert_relative_example :
    panes? (insert_relative 2 4 split_vertical true 1 1 3 three)
    ≡ insert_beside true 2 4 (panes three)
panes-insert_relative_example = panes-insert_relative 2 4 split_vertical true 1 1 3 three

insertions_keep_promise_example :
    let promise =
      promised 3 3 (count 3 (split_ids three)) (insertion_requires_split 2 split_vertical three) in
    (ids? 3 (insert_split 2 4 split_vertical 3 three) ≡ promise)
    × (ids? 3 (insert_relative 2 4 split_vertical true 1 1 3 three) ≡ promise)
insertions_keep_promise_example = insertions_keep_promise 3 2 4 split_vertical true 1 1 3 three

remove_pane_from_layout_lem_example :
    (visible (remove_pane_from_layout 2 three).0 ≡ without 2 (panes three))
    × ((remove_pane_from_layout 2 three).1 ≡ contains 2 (panes three))
remove_pane_from_layout_lem_example = remove_pane_from_layout_lem 2 three

not_there : contains 4 (panes three) ≡ false
unfolding contains panes
not_there = refl

widened : insert_split 1 4 split_vertical 3 three ≡ some three_and_four
unfolding insert_split split_weights_for_insertion normalize
widened = refl

remove_pane-insert_split_example :
    visible (remove_pane_from_layout 4 three_and_four).0 ≡ panes three
remove_pane-insert_split_example =
    remove_pane-insert_split 1 4 split_vertical 3 three not_there widened

abbrev two_weights : List ℕ
two_weights = max_uint32 ∷ 1 ∷ []

are_weights : All IsWeight two_weights
are_weights = ((omega arith, omega arith), ((omega arith, omega arith), tt))

split_weights_for_insertion_bounds_example :
    (can_double (normalize normalize_rounds two_weights) ≡ true)
    × (length (split_weights_for_insertion two_weights 0) ≡ suc (length two_weights))
    × All IsWeight (split_weights_for_insertion two_weights 0)
split_weights_for_insertion_bounds_example =
    split_weights_for_insertion_bounds two_weights 0 are_weights (omega arith)

abbrev small_weights : List ℕ
small_weights = 3 ∷ 1 ∷ []

are_small : All IsWeight small_weights
are_small = ((omega arith, omega arith), ((omega arith, omega arith), tt))

may_double : can_double small_weights ≡ true
unfolding can_double
may_double = refl

split_weights-Shares_example :
    (sum (split_weights_for_insertion small_weights 0) ≡ 2 * sum small_weights)
    × Shares (split_weights_for_insertion small_weights 0) 0 1 1
split_weights-Shares_example =
    split_weights-Shares small_weights 0 1 1 are_small may_double (omega arith) refl

halve_weight_wraps_example :
    (halve_weight max_uint32 ≤ halve_weight 7)
    × (halve_weight max_uint32 ≡ 1)
    × (7 < max_uint32 → halve_weight 7 ≡ (7 + 1) / 2)
halve_weight_wraps_example = halve_weight_wraps 7 (omega arith, omega arith)

-- The callback that collects the panes.
abbrev collecting : ℕ → List ℕ → Option (List ℕ)
collecting id seen = if contains id seen then none else some (id ∷ seen)

validate_layout-exact_example :
    validate_layout collecting three [] []
    ≡ combined
        (well_shaped three)
        (collect (split_ids three) [])
        (visit_all collecting (panes three) [])
validate_layout-exact_example = validate_layout-exact collecting three [] []

three-IsSound : IsSound three
unfolding IsSound valid_direction
three-IsSound =
    let ones : All IsWeight (1 ∷ 1 ∷ []) =
      ((omega arith, omega arith), ((omega arith, omega arith), tt)) in
    let both : All IsWeight (2 ∷ 1 ∷ []) =
      ((omega arith, omega arith), ((omega arith, omega arith), tt)) in
    ((refl, omega arith, refl, both), (tt, (((refl, omega arith, refl, ones), (tt, (tt, tt))), tt)))

is_direction : valid_direction split_vertical ≡ true
unfolding valid_direction
is_direction = refl

edits_sound_example :
    Sound? (insert_split 2 4 split_vertical 3 three)
    × Sound? (insert_relative 2 4 split_vertical true 5 2 3 three)
    × Sound? (remove_pane_from_layout 1 three).0
edits_sound_example =
    edits_sound 2 4 1 3 5 2 split_vertical true three three-IsSound is_direction
      (omega arith, omega arith) (omega arith, omega arith)
