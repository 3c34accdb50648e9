-- ===== src/Tui/Resize/OneCell.antt =====
-- resize.go, `resizeFocusedPane`: what a request to resize does to the lengths.
use project_ariadne.Base.{
  ℕ, zero, suc, ◌+◌, ◌-◌, ◌≤◌, ◌<◌, ◌≡◌, refl, ap, ap₂, sym, ◌∙◌, Bool, true, false, some, List, [],
  ◌∷◌, map, arith, All, length, sum, ◌==◌, nat_eq, string_eq, if◌then◌else◌,
}
use project_ariadne.Layout.Tree.{SplitDirection, node_count}
use project_ariadne.Tui.Split.{weighted_lengths}
use project_ariadne.Tui.Split.Lengths.{IsUint32, weighted_lengths-shares, weighted_lengths-settled}
use project_ariadne.Tui.Split.Cells.{IsScreen, axis-bound}
use project_ariadne.Tui.Resize.{
  LayoutAncestor, neighbor_of, node_at, grow_at, shrink_at, length_at, to_uint32, resize_request,
  ancestor_lengths, node_minimum, minimum_along, resize_at, shared_length,
}

abbrev pub IsPositive : List ℕ → Type 0
IsPositive ls = All (λ l. 1 ≤ l) ls

sum-grow_at :
    (i : ℕ) (ls : List ℕ)
    → i < length ls
    → (sum (grow_at i ls) ≡ suc (sum ls)) × (length (grow_at i ls) ≡ length ls)
unfolding grow_at sum
sum-grow_at i [] h = absurd (omega arith)
sum-grow_at zero (l ∷ ls) h = (omega arith, refl)
sum-grow_at (suc i) (l ∷ ls) h =
    let rest = sum-grow_at i ls (omega arith) in (omega arith, omega arith)

grow_at-IsPositive : (i : ℕ) (ls : List ℕ) → IsPositive ls → IsPositive (grow_at i ls)
unfolding grow_at
grow_at-IsPositive i [] h = tt
grow_at-IsPositive zero (l ∷ ls) h = (omega arith, h.1)
grow_at-IsPositive (suc i) (l ∷ ls) h = (h.0, grow_at-IsPositive i ls h.1)

length_at-grow_at :
    (i j : ℕ) (ls : List ℕ)
    → i < length ls
    → length_at (grow_at i ls) j ≡ (if i == j then length_at ls j + 1 else length_at ls j)
unfolding grow_at
length_at-grow_at i j [] h = absurd (omega arith)
length_at-grow_at zero zero (l ∷ ls) h = ground arith
length_at-grow_at zero (suc j) (l ∷ ls) h = ground arith
length_at-grow_at (suc i) zero (l ∷ ls) h = ground arith
length_at-grow_at (suc i) (suc j) (l ∷ ls) h = length_at-grow_at i j ls (omega arith) ∙ ground arith

length_at-shrink_at :
    (i j : ℕ) (ls : List ℕ)
    → length_at (shrink_at i ls) j ≡ (if i == j then length_at ls j - 1 else length_at ls j)
unfolding shrink_at
length_at-shrink_at i j [] = ground arith
length_at-shrink_at zero zero (l ∷ ls) = ground arith
length_at-shrink_at zero (suc j) (l ∷ ls) = ground arith
length_at-shrink_at (suc i) zero (l ∷ ls) = ground arith
length_at-shrink_at (suc i) (suc j) (l ∷ ls) = length_at-shrink_at i j ls ∙ ground arith

sum-shrink_at :
    (i : ℕ) (ls : List ℕ)
    → 1 ≤ length_at ls i
    → (sum (shrink_at i ls) + 1 ≡ sum ls) × (length (shrink_at i ls) ≡ length ls)
unfolding shrink_at sum
sum-shrink_at i [] h = absurd (omega arith)
sum-shrink_at zero (l ∷ ls) h = (omega arith, refl)
sum-shrink_at (suc i) (l ∷ ls) h = let rest = sum-shrink_at i ls h in (omega arith, omega arith)

shrink_at-IsPositive :
    (i : ℕ) (ls : List ℕ) → 2 ≤ length_at ls i → IsPositive ls → IsPositive (shrink_at i ls)
unfolding shrink_at
shrink_at-IsPositive i [] b h = tt
shrink_at-IsPositive zero (l ∷ ls) b h = (omega arith, h.1)
shrink_at-IsPositive (suc i) (l ∷ ls) b h = (h.0, shrink_at-IsPositive i ls b h.1)

map-to_uint32 : (ls : List ℕ) → sum ls ≤ 4294967295 → map to_uint32 ls ≡ ls
unfolding sum
map-to_uint32 [] b = refl
map-to_uint32 (l ∷ ls) b = ap₂ (λ (x : ℕ) xs. x ∷ xs) (omega arith) (map-to_uint32 ls (omega arith))

pub neighbor-distinct :
    (next : Bool) (index count neighbor : ℕ)
    → neighbor_of next index count ≡ some neighbor
    → ((index == neighbor) ≡ false) × (neighbor < count)
unfolding neighbor_of
neighbor-distinct true index count neighbor e = (ground arith, ground arith)
neighbor-distinct false zero count neighbor e = ground arith
neighbor-distinct false (suc index) count neighbor e = (ground arith, ground arith)

-- An ancestor as `layoutPath` finds it in a valid layout.
abbrev pub IsAncestor : LayoutAncestor → Type 0
IsAncestor a =
    All IsUint32 a.weights
    × (a.child_index < node_count a.children)
    × (node_count a.children ≤ 4294967295)
    × IsScreen a.rect

pub ancestor_lengths-shares :
    (split_frame : Bool) (a : LayoutAncestor)
    → IsAncestor a
    → (length (ancestor_lengths split_frame a) ≡ node_count a.children)
      × (sum (ancestor_lengths split_frame a) ≡ shared_length split_frame a)
      × (shared_length split_frame a ≤ 4294967295)
unfolding ancestor_lengths
ancestor_lengths-shares split_frame a h =
    let bound : shared_length split_frame a ≤ 4294967295 =
      omega (arith, axis-bound 0 0 a.direction a.rect h.3) in
    let (exact, one_each, total) =
      weighted_lengths-shares (shared_length split_frame a) (node_count a.children) a.weights h.0
        bound (omega arith) h.2 in
    (one_each, total, bound)

-- The lengths after the request: the child has one cell more, its neighbour one fewer.
abbrev pub moved_cell : ℕ → ℕ → List ℕ → List ℕ
moved_cell index neighbor lengths = shrink_at neighbor (grow_at index lengths)

moved_cell-lem :
    (index neighbor : ℕ) (ls : List ℕ)
    → (index == neighbor) ≡ false
    → index < length ls
    → 2 ≤ length_at ls neighbor
    → IsPositive ls
    → IsPositive (moved_cell index neighbor ls)
      × (sum (moved_cell index neighbor ls) ≡ sum ls)
      × (length (moved_cell index neighbor ls) ≡ length ls)
moved_cell-lem index neighbor ls distinct within long positive =
    let (grown, same) = sum-grow_at index ls within in
    let kept : length_at (grow_at index ls) neighbor ≡ length_at ls neighbor =
      ground (arith, length_at-grow_at index neighbor ls within) in
    let (shrunk, still) = sum-shrink_at neighbor (grow_at index ls) (omega (arith, kept)) in
    (
      shrink_at-IsPositive neighbor (grow_at index ls) (omega (arith, kept))
          (grow_at-IsPositive index ls positive),
      omega (arith, grown, shrunk),
      still ∙ same,
    )

pub requested :
    (pane_minimum : ℕ → ℕ × ℕ) (split_frame : Bool) (direction : SplitDirection)
    (a : LayoutAncestor) (neighbor id : ℕ) (ws : List ℕ)
    → resize_at pane_minimum split_frame direction a neighbor ≡ resize_request id ws
    → (id ≡ a.split_id)
      × (map to_uint32 (moved_cell a.child_index neighbor (ancestor_lengths split_frame a)) ≡ ws)
      × (minimum_along pane_minimum split_frame direction
            (node_minimum pane_minimum split_frame (node_at a.children neighbor))
          < length_at (ancestor_lengths split_frame a) neighbor)
unfolding resize_at
requested pane_minimum split_frame direction a neighbor id ws e = ground arith

-- What the child at `j` has after the request.
abbrev pub length_moved : ℕ → ℕ → List ℕ → ℕ → ℕ
length_moved index neighbor ls j =
    if index == j
    then length_at ls j + 1
    else (if neighbor == j then length_at ls j - 1 else length_at ls j)

pub length_at-moved_cell :
    (index neighbor j : ℕ) (ls : List ℕ)
    → (index == neighbor) ≡ false
    → index < length ls
    → length_at (moved_cell index neighbor ls) j ≡ length_moved index neighbor ls j
length_at-moved_cell index neighbor j ls distinct within =
    ground (
      arith,
      length_at-shrink_at neighbor j (grow_at index ls),
      length_at-grow_at index j ls within,
    )

-- At a split with uint32 weights, on a screen of uint32 size: if a child of it has a neighbour in the
-- direction, every child has a cell, and the neighbour needs at least one, then a request to resize
-- names that split, and under the requested weights the child has one cell more, the neighbour one
-- fewer, and every other child as many as before; the sum stays the same.
pub resize_moves_one_cell :
    (pane_minimum : ℕ → ℕ × ℕ) (split_frame next : Bool) (direction : SplitDirection)
    (a : LayoutAncestor) (neighbor id j : ℕ) (ws : List ℕ)
    → IsAncestor a
    → neighbor_of next a.child_index (node_count a.children) ≡ some neighbor
    → IsPositive (ancestor_lengths split_frame a)
    → 1
      ≤ minimum_along pane_minimum split_frame direction
          (node_minimum pane_minimum split_frame (node_at a.children neighbor))
    → resize_at pane_minimum split_frame direction a neighbor ≡ resize_request id ws
    → (id ≡ a.split_id)
      × (length_at (ancestor_lengths split_frame (record a { weights = ws })) j
          ≡ length_moved a.child_index neighbor (ancestor_lengths split_frame a) j)
      × (sum (ancestor_lengths split_frame (record a { weights = ws }))
          ≡ sum (ancestor_lengths split_frame a))
unfolding ancestor_lengths
resize_moves_one_cell pane_minimum split_frame next direction a neighbor id j ws h n p m e =
    let lengths = ancestor_lengths split_frame a in
    let (same_id, weights, longer) =
      requested pane_minimum split_frame direction a neighbor id ws e in
    let (count, total, bound) = ancestor_lengths-shares split_frame a h in
    let (distinct, within) =
      neighbor-distinct next a.child_index (node_count a.children) neighbor n in
    let (positive, same_sum, same_length) =
      moved_cell-lem a.child_index neighbor lengths distinct (omega (arith, count, h.1))
        (omega (arith, longer, m)) p in
    let moved = moved_cell a.child_index neighbor lengths in
    let exact = map-to_uint32 moved (omega (arith, same_sum, total, bound)) in
    let settled =
      weighted_lengths-settled moved positive (omega (arith, same_length, count, h.1))
        (omega (arith, same_sum, total, bound)) in
    let redrawn : ancestor_lengths split_frame (record a { weights = ws }) ≡ moved =
      ap (λ v. weighted_lengths (shared_length split_frame a) v (node_count a.children))
        (sym weights ∙ exact)
      ∙ ap₂ (λ n c. weighted_lengths n moved c) (omega (arith, total, same_sum))
          (omega (arith, same_length, count))
      ∙ settled in
    (
      same_id,
      ap (λ ls. length_at ls j) redrawn
          ∙ length_at-moved_cell a.child_index neighbor j lengths distinct
              (omega (arith, count, h.1)),
      ap sum redrawn ∙ same_sum,
    )
