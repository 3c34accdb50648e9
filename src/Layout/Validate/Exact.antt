-- ===== src/Layout/Validate/Exact.antt =====
-- `validateLayout` accepts exactly the well-formed trees: the shape of each node by itself, split IDs
-- that occur once, and panes that the callback accepts one after the other.
use project_ariadne.Base.{
  leb, ltb, length, string_eq, ℕ, ◌≡◌, refl, sym, ap, ap₂, ◌∙◌, Bool, true, false, not, ◌&&◌, ◌||◌,
  Option, none, some, List, [], ◌∷◌, ◌++◌, ◌==◌, nat_eq, contains, if◌then◌else◌, ◌>>=?◌, arith,
  Option-cases, inl, inr,
}
use mathlib.Core.Bool.{and_assoc}
use project_ariadne.Layout.Tree.{
  SplitDirection, node_count, valid_direction, LayoutNode, pane, split, Nodes, nil, cons, panes,
  panes_of, split_ids, split_ids_of,
}
use project_ariadne.Layout.Edit.{head_weight, rest_weights}
use project_ariadne.Layout.Validate.{seen_with, bad_split, validate_layout, validate_children}

-- A split by itself: an ID, one of the two directions, and as many weights as children, of which there
-- are two or more.
abbrev pub is_split : ℕ → SplitDirection → Nodes → List ℕ → Bool
is_split s d cs ws =
    not (s == 0)
    && (d == "horizontal" || d == "vertical")
    && leb 2 (node_count cs)
    && node_count cs == length ws

none_of : (a b c e : Bool) → not (a || not b || c || not e) ≡ (not a && b && not c && e)
none_of true b c e = refl
none_of false false c e = refl
none_of false true true e = refl
none_of false true false true = refl
none_of false true false false = refl

two_or_more : (n : ℕ) → not (ltb n 2) ≡ leb 2 n
two_or_more n = ground arith

is_split-bad_split :
    (s : ℕ) (d : SplitDirection) (cs : Nodes) (ws : List ℕ)
    → not (bad_split s d cs ws) ≡ is_split s d cs ws
unfolding bad_split valid_direction
is_split-bad_split s d cs ws =
    none_of (s == 0) (d == "horizontal" || d == "vertical") (ltb (node_count cs) 2)
      (node_count cs == length ws)
    ∙ ap
        (λ b.
          not (s == 0) && (d == "horizontal" || d == "vertical") && b && node_count cs == length ws)
        (two_or_more (node_count cs))

-- Each node by itself.
unfoldable mutual
  pub well_shaped : LayoutNode → Bool
  well_shaped (pane p) = not (p == 0)
  well_shaped (split s d cs ws) = is_split s d cs ws && well_shaped_all cs ws

  pub well_shaped_all : Nodes → List ℕ → Bool
  well_shaped_all nil ws = true
  well_shaped_all (cons c cs) ws =
      not (head_weight ws == 0) && well_shaped c && well_shaped_all cs (rest_weights ws)

-- The split IDs one after the other, none of them seen before.
unfoldable pub collect : List ℕ → List ℕ → Option (List ℕ)
collect [] seen = some seen
collect (s ∷ ss) seen = let rest = collect ss (s ∷ seen) in if contains s seen then none else rest

-- The callback on the panes one after the other.
unfoldable pub visit_all : {V : Type 0} → (ℕ → V → Option V) → List ℕ → V → Option V
visit_all visit [] v = some v
visit_all visit (p ∷ ps) v = visit p v >>=? visit_all visit ps

abbrev pub combined : {V : Type 0} → Bool → Option (List ℕ) → Option V → Option (List ℕ × V)
combined true (some seen) (some v) = some (seen, v)
combined _ _ _ = none

collect-append : (xs ys seen : List ℕ) → collect (xs ++ ys) seen ≡ (collect xs seen >>=? collect ys)
unfolding collect
collect-append [] ys seen = refl
collect-append (x ∷ xs) ys seen = ground (arith, collect-append xs ys (x ∷ seen))

bind_assoc :
    {A B C : Type 0} (m : Option A) (f : A → Option B) (g : B → Option C)
    → (m >>=? f >>=? g) ≡ (m >>=? λ a. f a >>=? g)
bind_assoc none f g = refl
bind_assoc (some a) f g = refl

bind_cong :
    {A B : Type 0} {m m' : Option A} {f g : A → Option B}
    → m ≡ m'
    → ((a : A) → f a ≡ g a)
    → (m >>=? f) ≡ (m' >>=? g)
bind_cong p q i = p i >>=? λ a. q a i

module _ {V : Type 0} (visit : ℕ → V → Option V) where
  visit_all-append :
      (ps qs : List ℕ) (v : V)
      → visit_all visit (ps ++ qs) v ≡ (visit_all visit ps v >>=? visit_all visit qs)
  unfolding visit_all
  visit_all-append [] qs v = refl
  visit_all-append (p ∷ ps) qs v = elim (Option-cases (visit p v)) [
    | inl e ↦ rw e refl
    | inr (w, e) ↦ rw e (visit_all-append ps qs w)
  ]

  combined-bind :
      (a b : Bool) (s : Option (List ℕ)) (v : Option V) (f : List ℕ → Option (List ℕ))
      (g : V → Option V)
      → (combined a s v >>=? λ st. combined b (f st.0) (g st.1))
        ≡ combined (a && b) (s >>=? f) (v >>=? g)
  combined-bind false b s v f g = refl
  combined-bind true false none v f g = refl
  combined-bind true false (some s) none f g = refl
  combined-bind true false (some s) (some v) f g = refl
  combined-bind true true none v f g = refl
  combined-bind true true (some s) none f g = ground arith
  combined-bind true true (some s) (some v) f g = refl

  leaf_case :
      (zero_id : Bool) (seen : List ℕ) (m : Option V)
      → (if zero_id then none else seen_with seen m)
        ≡ combined (not zero_id) (some seen) (m >>=? some)
  leaf_case true seen m = refl
  leaf_case false seen none = refl
  leaf_case false seen (some v) = refl

  refused : (a : Bool) (v : Option V) → combined a none v ≡ none
  refused false v = refl
  refused true v = refl

  split_case :
      (bad twice shaped : Bool) (s : Option (List ℕ)) (v : Option V)
      → (if bad || twice then none else combined shaped s v)
        ≡ combined (not bad && shaped) (if twice then none else s) v
  split_case true twice shaped s v = refl
  split_case false true shaped s v = sym (refused shaped v)
  split_case false false shaped s v = refl

  weight_case :
      (zero_weight rest : Bool) (s : Option (List ℕ)) (v : Option V)
      → (if zero_weight then none else combined rest s v) ≡ combined (not zero_weight && rest) s v
  weight_case true rest s v = refl
  weight_case false rest s v = refl

  mutual
    unfolding validate_layout well_shaped collect visit_all panes split_ids

    exact :
        (layout : LayoutNode) (seen : List ℕ) (v : V)
        → validate_layout visit layout seen v
          ≡ combined
              (well_shaped layout)
              (collect (split_ids layout) seen)
              (visit_all visit (panes layout) v)
    exact (pane p) seen v = leaf_case (p == 0) seen (visit p v)
    exact (split s d cs ws) seen v = rw (exact_all cs ws (s ∷ seen) v) (
        split_case (bad_split s d cs ws) (contains s seen) (well_shaped_all cs ws)
          (collect (split_ids_of cs) (s ∷ seen)) (visit_all visit (panes_of cs) v)
        ∙ ap
            (λ b.
              combined (b && well_shaped_all cs ws) (collect (split_ids (split s d cs ws)) seen)
                (visit_all visit (panes_of cs) v))
            (is_split-bad_split s d cs ws))

    exact_all :
        (cs : Nodes) (ws seen : List ℕ) (v : V)
        → validate_children visit cs ws seen v
          ≡ combined
              (well_shaped_all cs ws)
              (collect (split_ids_of cs) seen)
              (visit_all visit (panes_of cs) v)
    exact_all nil ws seen v = refl
    exact_all (cons c cs) ws seen v =
        let found = collect (split_ids c) seen in
        let state = visit_all visit (panes c) v in
        let more = well_shaped_all cs (rest_weights ws) in
        ap (λ r. if head_weight ws == 0 then none else r)
          (bind_cong (exact c seen v) (λ st. exact_all cs (rest_weights ws) st.0 st.1)
            ∙ combined-bind (well_shaped c) more found state (collect (split_ids_of cs))
                (visit_all visit (panes_of cs)))
        ∙ weight_case (head_weight ws == 0) (well_shaped c && more)
            (found >>=? collect (split_ids_of cs)) (state >>=? visit_all visit (panes_of cs))
        ∙ ap₂ (combined (not (head_weight ws == 0) && (well_shaped c && more)))
            (sym (collect-append (split_ids c) (split_ids_of cs) seen))
            (sym (visit_all-append (panes c) (panes_of cs) v))
        ∙ ap
            (λ b.
              combined b (collect (split_ids c ++ split_ids_of cs) seen)
                (visit_all visit (panes c ++ panes_of cs) v))
            (sym (and_assoc (not (head_weight ws == 0)) (well_shaped c) more))

  -- `validateLayout` succeeds exactly if every pane has an ID, every split has one, a direction, two
  -- children or more and one weight other than 0 for each, no split ID was seen before or
  -- occurs twice, and the callback accepts the panes from left to right; it then returns the split
  -- IDs seen and the callback's state.
  pub validate_layout-exact :
      (layout : LayoutNode) (seen : List ℕ) (v : V)
      → validate_layout visit layout seen v
        ≡ combined
            (well_shaped layout)
            (collect (split_ids layout) seen)
            (visit_all visit (panes layout) v)
  validate_layout-exact layout seen v = exact layout seen v
