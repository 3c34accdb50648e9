-- ===== src/Layout/Validate/Removed.antt =====
-- Removing a pane keeps the splits of a layout valid.
use project_ariadne.Base.{
  ℕ, ◌≡◌, refl, Bool, true, Option, none, some, List, [], ◌∷◌, ◌==◌, nat_eq, string_eq, length, All,
  arith, Bool-cases, inl, inr,
}
use project_ariadne.Layout.Tree.{
  SplitDirection, LayoutNode, pane, split, Nodes, nil, cons, node_count, valid_direction,
}
use project_ariadne.Layout.Weights.Bounds.{IsWeight}
use project_ariadne.Layout.Edit.{
  Kept, keep, collapse, remove_pane_from_layout, remove_pane_from_children,
}
use project_ariadne.Layout.Validate.Sound.{IsSound, AllSound, Sound?}

sound-collapse :
    (s : ℕ) (d : SplitDirection) (cs : Nodes) (ws : List ℕ)
    → valid_direction d ≡ true
    → AllSound cs
    → node_count cs ≡ length ws
    → All IsWeight ws
    → Sound? (collapse s d cs ws).0
unfolding IsSound
sound-collapse s d nil ws v h n w = tt
sound-collapse s d (cons c nil) ws v h n w = h.0
sound-collapse s d (cons c (cons c' cs)) ws v h n w = ((v, omega arith, n, w), h)

abbrev KeptSound : Kept → Type 0
KeptSound k =
    AllSound k.children × (node_count k.children ≡ length k.weights) × All IsWeight k.weights

sound-keep :
    (w : ℕ) (r : Option LayoutNode × Bool) (k : Kept)
    → IsWeight w
    → Sound? r.0
    → KeptSound k
    → KeptSound (keep w r k)
unfolding IsSound
sound-keep w (none, gone) k x h t = t
sound-keep w (some c, gone) k x h t = ((h, t.0), omega arith, (x, t.2))

mutual
  unfolding remove_pane_from_layout IsSound

  pub sound-remove :
      (id : ℕ) (layout : LayoutNode) → IsSound layout → Sound? (remove_pane_from_layout id layout).0
  sound-remove id (pane p) h = elim (Bool-cases (p == id)) [
    | inl hit ↦ rw hit tt
    | inr miss ↦ rw miss tt
  ]
  sound-remove id (split s d cs ws) h =
      let kept = remove_pane_from_children id cs ws in
      let t = sound-remove_children id cs ws h.1 h.0.2 h.0.3 in
      elim (Bool-cases kept.removed) [
        | inl gone ↦ rw gone (sound-collapse s d kept.children kept.weights h.0.0 t.0 t.1 t.2)
        | inr absent ↦ rw absent h
      ]

  sound-remove_children :
      (id : ℕ) (cs : Nodes) (ws : List ℕ)
      → AllSound cs
      → node_count cs ≡ length ws
      → All IsWeight ws
      → KeptSound (remove_pane_from_children id cs ws)
  sound-remove_children id nil ws h n w = (tt, refl, tt)
  sound-remove_children id (cons c cs) [] h n w = absurd (omega arith)
  sound-remove_children id (cons c cs) (x ∷ ws) h n w =
      sound-keep x (remove_pane_from_layout id c) (remove_pane_from_children id cs ws) w.0
        (sound-remove id c h.0) (sound-remove_children id cs ws h.1 (omega arith) w.1)
