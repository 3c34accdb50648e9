-- ===== src/Tui/Resize/Handler.antt =====
-- resize.go, `resizeFocusedPane`: which split it resizes.
use project_ariadne.Base.{
  zero, ◌<◌, refl, sym, false, ℕ, suc, ◌+◌, ◌≤◌, ◌≡◌, ap, ◌∙◌, Bool, true, some, List, [], ◌∷◌, map,
  arith, All, nat_eq, string_eq, Option-cases, inl, inr,
}
use project_ariadne.Layout.Tree.{SplitDirection, LayoutNode, node_count, layout_contains_pane}
use project_ariadne.Tui.Split.{Rect}
use project_ariadne.Tui.Split.Cells.{IsDrawable}
use project_ariadne.Tui.Resize.{
  LayoutAncestor, layout_path, node_at, neighbor_of, ResizeAction, ResizeOutcome, resize_request,
  resize_direction, resize_at, resize_among, resize_focused_pane, to_uint32, ancestor_lengths,
  length_at, minimum_along, node_minimum,
}
use project_ariadne.Tui.Resize.OneCell.{
  moved_cell, requested, length_moved, ancestor_lengths-shares, neighbor-distinct,
  length_at-moved_cell,
}
use project_ariadne.Tui.Resize.Ancestors.{IsSplitIn, node_of, LeadsTo, layout_path-LeadsTo}

-- An ancestor with a neighbour in the direction, and what is done there.
abbrev IsResized :
    (LayoutAncestor → Type 0)
    → (ℕ → ℕ × ℕ)
    → Bool
    → SplitDirection × Bool
    → ResizeOutcome
    → LayoutAncestor
    → ℕ
    → Type 0
IsResized P pane_minimum split_frame (direction, next) outcome a neighbor =
    P a
    × (a.direction ≡ direction)
    × (neighbor_of next a.child_index (node_count a.children) ≡ some neighbor)
    × (resize_at pane_minimum split_frame direction a neighbor ≡ outcome)

length_at-map-to_uint32 :
    (ls : List ℕ) (j : ℕ) → length_at (map to_uint32 ls) j ≡ to_uint32 (length_at ls j)
length_at-map-to_uint32 [] j = omega arith
length_at-map-to_uint32 (l ∷ ls) zero = refl
length_at-map-to_uint32 (l ∷ ls) (suc j) = length_at-map-to_uint32 ls j

-- The index of the next child or of the one before, among so many.
abbrev pub IsBeside : Bool → ℕ → ℕ → ℕ → Type 0
IsBeside true index count neighbor = (neighbor ≡ index + 1) × (neighbor < count)
IsBeside false index count neighbor = (neighbor + 1 ≡ index) × (neighbor < count)

neighbor_of-IsBeside :
    (next : Bool) (index count neighbor : ℕ)
    → neighbor_of next index count ≡ some neighbor
    → IsBeside next index count neighbor
unfolding neighbor_of
neighbor_of-IsBeside true index count neighbor e = (ground (arith, e), ground (arith, e))
neighbor_of-IsBeside false zero count neighbor e = ground (arith, e)
neighbor_of-IsBeside false (suc index) count neighbor e = (ground (arith, e), ground (arith, e))

-- A split of the layout on the way to the focused pane, and the request that is made for it.
abbrev pub IsRequested :
    (ℕ → ℕ × ℕ)
    → Bool
    → LayoutNode
    → ℕ
    → SplitDirection × Bool
    → ℕ
    → List ℕ
    → LayoutAncestor
    → ℕ
    → Type 0
IsRequested pane_minimum split_frame layout focus (direction, next) id ws a neighbor =
    (id ≡ a.split_id)
    × (a.direction ≡ direction)
    × IsSplitIn (node_of a) layout
    × (layout_contains_pane focus (node_at a.children a.child_index) ≡ true)
    × IsBeside next a.child_index (node_count a.children) neighbor
    × (minimum_along pane_minimum split_frame direction
          (node_minimum pane_minimum split_frame (node_at a.children neighbor))
        < length_at (ancestor_lengths split_frame a) neighbor)
    × ((j : ℕ)
        → length_at ws j
          ≡ to_uint32 (length_moved a.child_index neighbor (ancestor_lengths split_frame a) j))

module _ (pane_minimum : ℕ → ℕ × ℕ) (split_frame : Bool) where
  resized-IsRequested :
      (layout : LayoutNode) (focus : ℕ) (direction : SplitDirection) (next : Bool) (id : ℕ)
      (ws : List ℕ) (a : LayoutAncestor) (neighbor : ℕ)
      → LeadsTo layout focus a
      → a.direction ≡ direction
      → neighbor_of next a.child_index (node_count a.children) ≡ some neighbor
      → resize_at pane_minimum split_frame direction a neighbor ≡ resize_request id ws
      → IsRequested pane_minimum split_frame layout focus (direction, next) id ws a neighbor
  resized-IsRequested layout focus direction next id ws a neighbor (is, within, shows) same beside
        done =
      let (same_id, weights, longer) =
        requested pane_minimum split_frame direction a neighbor id ws done in
      let lengths = ancestor_lengths split_frame a in
      let (count, total, bound) = ancestor_lengths-shares split_frame a is in
      let (distinct, inside) =
        neighbor-distinct next a.child_index (node_count a.children) neighbor beside in
      (
        same_id,
        same,
        within,
        shows,
        neighbor_of-IsBeside next a.child_index (node_count a.children) neighbor beside,
        longer,
        λ j.
            ap (λ (l : List ℕ). length_at l j) (sym weights)
            ∙ length_at-map-to_uint32 (moved_cell a.child_index neighbor lengths) j
            ∙ ap to_uint32 (
                length_at-moved_cell a.child_index neighbor j lengths distinct
                  (omega (arith, count, is.1))),
      )

  resize_among-IsResized :
      (P : LayoutAncestor → Type 0) (direction : SplitDirection) (next : Bool)
      (path : List LayoutAncestor) (outcome : ResizeOutcome)
      → All P path
      → resize_among pane_minimum split_frame direction next path ≡ some outcome
      → (a : LayoutAncestor) × (neighbor : ℕ) × IsResized P pane_minimum split_frame
          (direction, next)
          outcome
          a
          neighbor
  unfolding resize_among
  resize_among-IsResized P direction next [] outcome h e = ground arith
  resize_among-IsResized P direction next (a ∷ path) outcome h e =
      elim (Option-cases (resize_among pane_minimum split_frame direction next path)) [
        | inr (inner, r) ↦
            resize_among-IsResized P direction next path outcome h.1 (ground (arith, r, e))
        | inl passed ↦
            elim (Option-cases (neighbor_of next a.child_index (node_count a.children))) [
              | inl alone ↦ ground (arith, passed, alone, e)
              | inr (neighbor, found) ↦ (
                a,
                neighbor,
                (
                  h.0,
                  (string_eq.beq_iff a.direction direction).0 (ground (arith, passed, e)),
                  found,
                  ground (arith, passed, found, e),
                ),
              )
            ]
      ]

  pub resize_focused_pane-request :
      (layout : LayoutNode) (width height focus id : ℕ) (action : ResizeAction) (ws : List ℕ)
      → IsDrawable layout
      → width ≤ 4294967295
      → height ≤ 4294967295
      → resize_focused_pane pane_minimum split_frame (some layout) width height focus action
        ≡ resize_request id ws
      → (a : LayoutAncestor) × (neighbor : ℕ) × IsRequested pane_minimum split_frame layout focus
          (resize_direction action)
          id
          ws
          a
          neighbor
  unfolding resize_focused_pane
  resize_focused_pane-request layout width height focus id action ws h bw bh e =
      let root : Rect = record { x = 0; y = 0; w = width; h = height } in
      let (direction, next) = resize_direction action in
      elim (Option-cases (layout_path layout root focus split_frame [])) [
        | inl missed ↦ ground (arith, missed, e)
        | inr (path, found) ↦
            elim (Option-cases (resize_among pane_minimum split_frame direction next path)) [
              | inl passed ↦ ground (arith, found, passed, e)
              | inr (outcome, chosen) ↦
                  let leads =
                    layout_path-LeadsTo layout layout root focus split_frame [] path (λ node m. m) h
                      (bw, bh) (λ _. tt) found in
                  let (a, neighbor, (led, same, beside, done)) =
                    resize_among-IsResized (LeadsTo layout focus) direction next path
                      (resize_request id ws) leads (ground (arith, found, chosen, e)) in
                  (
                    a,
                    neighbor,
                    resized-IsRequested layout focus direction next id ws a neighbor led same beside
                        done,
                  )
            ]
      ]
