-- ===== src/Tui/Split/Cells.antt =====
-- layout.go: the cells of a rectangle, and of its strips.
use project_ariadne.Base.{
  ℕ, ◌+◌, ◌≤◌, ◌≡◌, Bool, true, false, ◌&&◌, List, [], ◌∷◌, ◌++◌, arith, All, length, ◌==◌, nat_eq,
  string_eq, leb, ltb, Bool-cases, inl, inr,
}
use project_ariadne.Layout.Tree.{
  SplitDirection, LayoutNode, pane, split, Nodes, nil, cons, split_vertical, node_count,
}
use project_ariadne.Tui.Split.{Rect, Placement, axis, child_rect, is_empty}
use project_ariadne.Tui.Split.Lengths.{IsUint32}

-- The cell `(cx, cy)` lies in a rectangle.
abbrev pub between : ℕ → ℕ → ℕ → Bool
between start length c = leb start c && ltb c (start + length)

abbrev pub covers : Rect → ℕ → ℕ → Bool
covers rect cx cy = between rect.x rect.w cx && between rect.y rect.h cy

abbrev pub one_if : Bool → ℕ
one_if true = 1
one_if false = 0

-- How many elements pass a test.
unfoldable pub tally : {A : Type 0} → (A → Bool) → List A → ℕ
tally p [] = 0
tally p (x ∷ xs) = one_if (p x) + tally p xs

pub tally-append :
    {A : Type 0} (p : A → Bool) (xs ys : List A) → tally p (xs ++ ys) ≡ tally p xs + tally p ys
unfolding tally
tally-append p [] ys = omega arith
tally-append p (x ∷ xs) ys = omega (arith, tally-append p xs ys)

-- Every split has children, fewer than 2^32, and uint32 weights.
unfoldable mutual
  pub IsDrawable : LayoutNode → Type 0
  IsDrawable (pane p) = Unit
  IsDrawable (split s d cs ws) =
      All IsUint32 ws × (1 ≤ node_count cs) × (node_count cs ≤ 4294967295) × AllDrawable cs

  pub AllDrawable : Nodes → Type 0
  AllDrawable nil = Unit
  AllDrawable (cons c cs) = IsDrawable c × AllDrawable cs

-- A rectangle whose sides are below 2^32.
abbrev pub IsScreen : Rect → Type 0
IsScreen rect = (rect.w ≤ 4294967295) × (rect.h ≤ 4294967295)

module _ (cx cy : ℕ) where
  abbrev pub at : Rect → ℕ
  at rect = one_if (covers rect cx cy)

  pub empty_covers : (rect : Rect) → is_empty rect ≡ true → at rect ≡ 0
  empty_covers rect e = ground arith

  -- A strip of a rectangle is divided where one child ends and the next starts.
  pub strips :
      (d : SplitDirection) (rect : Rect) (offset l m : ℕ)
      → at (child_rect d rect offset (l + m))
        ≡ at (child_rect d rect offset l) + at (child_rect d rect (offset + l) m)
  strips d rect offset l m = elim (Bool-cases (d == split_vertical)) [
    | inl vertical ↦ rw vertical (ground arith)
    | inr horizontal ↦ rw horizontal (ground arith)
  ]

  pub no_strip :
      (d : SplitDirection) (rect : Rect) (offset : ℕ) → at (child_rect d rect offset 0) ≡ 0
  no_strip d rect offset = ground arith

  pub whole_strip :
      (d : SplitDirection) (rect : Rect) → at (child_rect d rect 0 (axis d rect)) ≡ at rect
  whole_strip d rect = elim (Bool-cases (d == split_vertical)) [
    | inl vertical ↦ rw vertical (ground arith)
    | inr horizontal ↦ rw horizontal (ground arith)
  ]

  pub child-IsScreen :
      (d : SplitDirection) (rect : Rect) (offset l : ℕ)
      → IsScreen rect
      → l ≤ 4294967295
      → IsScreen (child_rect d rect offset l)
  child-IsScreen d rect offset l s h = ground arith

  pub axis-bound : (d : SplitDirection) (rect : Rect) → IsScreen rect → axis d rect ≤ 4294967295
  axis-bound d rect s = ground arith

  abbrev pub placed_at : Placement → Bool
  placed_at p = covers p.rect cx cy
