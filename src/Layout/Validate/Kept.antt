-- ===== src/Layout/Validate/Kept.antt =====
-- Editing keeps a layout valid: the shape of its splits, and through the lemmas on panes and split
-- IDs all that `validateLayout` asks of a node.
use project_ariadne.Base.{
  ℕ, zero, suc, ◌<◌, ◌≡◌, refl, ap, Bool, true, false, ◌&&◌, Option, none, some, List, [], ◌∷◌,
  ◌==◌, nat_eq, string_eq, length, All, if◌then◌else◌, arith, Bool-cases, inl, inr,
}
use project_ariadne.Layout.Tree.{
  SplitDirection, LayoutNode, pane, split, Nodes, nil, cons, node_count, is_pane, valid_direction,
}
use project_ariadne.Layout.Weights.Bounds.{IsWeight, split_weights_for_insertion_bounds}
use project_ariadne.Layout.Edit.{
  Placed, sibling, nested, missed, insert_split, insert_split_children, with_split_weights,
  placed_or, behind, insert_relative, insert_relative_children, with_weight_at, insert_weight,
  relative_pair, remove_pane_from_layout,
}
use project_ariadne.Layout.Validate.Removed.{sound-remove}
use project_ariadne.Layout.Validate.Sound.{IsSplit, IsSound, AllSound, Sound?}

-- The outcome of the loop over `n` children.
abbrev SoundPlaced : ℕ → Placed → Type 0
SoundPlaced n (sibling index cs) = AllSound cs × (node_count cs ≡ suc n) × (index < n)
SoundPlaced n (nested cs) = AllSound cs × (node_count cs ≡ n)
SoundPlaced n missed = Unit

sound-behind :
    (c : LayoutNode) (n : ℕ) (r : Placed)
    → IsSound c
    → SoundPlaced n r
    → SoundPlaced (suc n) (behind c r)
unfolding IsSound
sound-behind c n (sibling k cs) h r = ((h, r.0), omega arith, omega arith)
sound-behind c n (nested cs) h r = ((h, r.0), omega arith)
sound-behind c n missed h r = tt

sound-placed_or :
    (c : LayoutNode) (cs : Nodes) (a : Option LayoutNode) (r : Placed)
    → IsSound c
    → AllSound cs
    → Sound? a
    → SoundPlaced (node_count cs) r
    → SoundPlaced (suc (node_count cs)) (placed_or c cs a r)
unfolding IsSound
sound-placed_or c cs (some c') r h hs k t = ((k, hs), refl)
sound-placed_or c cs none r h hs k t = sound-behind c (node_count cs) r h t

sound-with_split_weights :
    (s : ℕ) (d : SplitDirection) (n : ℕ) (ws : List ℕ) (r : Placed)
    → IsSplit d n ws
    → SoundPlaced n r
    → Sound? (with_split_weights s d ws r)
unfolding IsSound
sound-with_split_weights s d n ws (sibling k cs) h t =
    let b = split_weights_for_insertion_bounds ws k h.3 (omega arith) in
    ((h.0, omega arith, omega arith, b.2), t.0)
sound-with_split_weights s d n ws (nested cs) h t = ((h.0, omega arith, omega arith, h.3), t.0)
sound-with_split_weights s d n ws missed h t = tt

module _ (target inserted : ℕ) (d : SplitDirection) (id : ℕ)
    (valid : valid_direction d ≡ true) where
  mutual
    unfolding insert_split IsSound

    sound-insert_split :
        (layout : LayoutNode) → IsSound layout → Sound? (insert_split target inserted d id layout)
    sound-insert_split (pane p) h = elim (Bool-cases (p == target)) [
      | inl hit ↦ rw hit ((valid, omega arith, refl, omega arith), (tt, (tt, tt)))
      | inr miss ↦ rw miss tt
    ]
    sound-insert_split (split s e cs ws) h =
        sound-with_split_weights s e (node_count cs) ws
          (insert_split_children target inserted d id (e == d) cs) h.0
          (sound-insert_split_children (e == d) cs h.1)

    sound-insert_split_children :
        (same : Bool) (cs : Nodes)
        → AllSound cs
        → SoundPlaced (node_count cs) (insert_split_children target inserted d id same cs)
    sound-insert_split_children same nil h = tt
    sound-insert_split_children same (cons c cs) h = elim (Bool-cases (is_pane target c && same)) [
      | inl here ↦ rw here ((h.0, (tt, h.1)), refl, omega arith)
      | inr there ↦ rw there (
          sound-placed_or c cs (insert_split target inserted d id c)
            (insert_split_children target inserted d id same cs) h.0 h.1 (sound-insert_split c h.0)
            (sound-insert_split_children same cs h.1))
    ]

insert_weight_sound :
    (w index : ℕ) (ws : List ℕ)
    → IsWeight w
    → All IsWeight ws
    → All IsWeight (insert_weight w index ws)
unfolding insert_weight
insert_weight_sound w zero ws k h = (k, h)
insert_weight_sound w (suc index) [] k h = (k, tt)
insert_weight_sound w (suc index) (v ∷ ws) k h = (h.0, insert_weight_sound w index ws k h.1)

length-insert_weight :
    (w index : ℕ) (ws : List ℕ) → length (insert_weight w index ws) ≡ suc (length ws)
unfolding insert_weight
length-insert_weight w zero ws = refl
length-insert_weight w (suc index) [] = refl
length-insert_weight w (suc index) (v ∷ ws) = ap suc (length-insert_weight w index ws)

sound-with_weight_at :
    (s : ℕ) (d : SplitDirection) (n : ℕ) (ws : List ℕ) (before : Bool) (w : ℕ) (r : Placed)
    → IsWeight w
    → IsSplit d n ws
    → SoundPlaced n r
    → Sound? (with_weight_at s d ws before w r)
unfolding IsSound
sound-with_weight_at s d n ws before w (sibling k cs) x h t =
    let at = if before then k else suc k in
    (
      (
        h.0,
        omega arith,
        omega (arith, length-insert_weight w at ws),
        insert_weight_sound w at ws x h.3,
      ),
      t.0,
    )
sound-with_weight_at s d n ws before w (nested cs) x h t =
    ((h.0, omega arith, omega arith, h.3), t.0)
sound-with_weight_at s d n ws before w missed x h t = tt

sound-relative_pair :
    (target inserted : ℕ) (before : Bool) (cs : Nodes)
    → AllSound cs
    → AllSound (relative_pair target inserted before cs)
      × (node_count (relative_pair target inserted before cs) ≡ suc (suc (node_count cs)))
unfolding IsSound
sound-relative_pair target inserted true cs h = ((tt, (tt, h)), refl)
sound-relative_pair target inserted false cs h = ((tt, (tt, h)), refl)

pair-IsSplit :
    (d : SplitDirection) (before : Bool) (target inserted w tw : ℕ)
    → valid_direction d ≡ true
    → IsWeight w
    → IsWeight tw
    → IsSplit d
        (node_count (relative_pair target inserted before nil))
        (if before then w ∷ tw ∷ [] else tw ∷ w ∷ [])
pair-IsSplit d true target inserted w tw v x y = (v, omega arith, refl, (x, (y, tt)))
pair-IsSplit d false target inserted w tw v x y = (v, omega arith, refl, (y, (x, tt)))

module _ (target inserted : ℕ) (d : SplitDirection) (before : Bool) (w tw id : ℕ)
    (valid : valid_direction d ≡ true) (weight : IsWeight w) (target_weight : IsWeight tw) where
  mutual
    unfolding insert_relative IsSound

    sound-insert_relative :
        (layout : LayoutNode)
        → IsSound layout
        → Sound? (insert_relative target inserted d before w tw id layout)
    sound-insert_relative (pane p) h = elim (Bool-cases (p == target)) [
      | inl hit ↦ rw hit (
        pair-IsSplit d before target inserted w tw valid weight target_weight,
        (sound-relative_pair target inserted before nil tt).0,
      )
      | inr miss ↦ rw miss tt
    ]
    sound-insert_relative (split s e cs ws) h =
        sound-with_weight_at s e (node_count cs) ws before w
          (insert_relative_children target inserted d before w tw id (e == d) cs) weight h.0
          (sound-insert_relative_children (e == d) cs h.1)

    sound-insert_relative_children :
        (same : Bool) (cs : Nodes)
        → AllSound cs
        → SoundPlaced
            (node_count cs)
            (insert_relative_children target inserted d before w tw id same cs)
    sound-insert_relative_children same nil h = tt
    sound-insert_relative_children same (cons c cs) h =
        elim (Bool-cases (is_pane target c && same)) [
          | inl here ↦
              let pair = sound-relative_pair target inserted before cs h.1 in
              rw here (pair.0, pair.1, omega arith)
          | inr there ↦ rw there (
              sound-placed_or c cs (insert_relative target inserted d before w tw id c)
                (insert_relative_children target inserted d before w tw id same cs) h.0 h.1
                (sound-insert_relative c h.0) (sound-insert_relative_children same cs h.1))
        ]

-- Inserting with a valid direction and weights of at least 1, and removing, keep every split of a
-- layout valid: its direction, its two children or more, and one uint32 weight of at least 1 each.
pub edits_sound :
    (target inserted id split_id w tw : ℕ) (d : SplitDirection) (before : Bool)
    (layout : LayoutNode)
    → IsSound layout
    → valid_direction d ≡ true
    → IsWeight w
    → IsWeight tw
    → Sound? (insert_split target inserted d split_id layout)
      × Sound? (insert_relative target inserted d before w tw split_id layout)
      × Sound? (remove_pane_from_layout id layout).0
edits_sound target inserted id split_id w tw d before layout h v x y = (
  sound-insert_split target inserted d split_id v layout h,
  sound-insert_relative target inserted d before w tw split_id v x y layout h,
  sound-remove id layout h,
)
