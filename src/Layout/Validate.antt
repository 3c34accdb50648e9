-- ===== src/Layout/Validate.antt =====
-- model.go, `validateLayout`. Every failure wraps ErrInvalidState: `none`. The callback `visit`
-- threads the state that the source's closure captures.
pub mod Exact
pub mod Sound
pub mod Removed
pub mod Kept
use project_ariadne.Base.{
  ℕ, Bool, true, false, not, ◌&&◌, ◌||◌, Option, none, some, List, [], ◌∷◌, ◌==◌, nat_eq, ltb, leb,
  length, contains, all, if◌then◌else◌, ◌>>=?◌,
}
use project_ariadne.Layout.Tree.{
  SplitDirection, LayoutNode, pane, split, Nodes, nil, cons, node_count, valid_direction,
}
use project_ariadne.Layout.Edit.{head_weight, rest_weights}
use project_ariadne.Layout.Weights.{max_uint32}

abbrev pub seen_with : {V : Type 0} → List ℕ → Option V → Option (List ℕ × V)
seen_with seen none = none
seen_with seen (some v) = some (seen, v)

-- `node.SplitID == 0 || !validDirection(...) || len(Children) < 2 || len(Children) != len(Weights)`.
unfoldable pub bad_split : ℕ → SplitDirection → Nodes → List ℕ → Bool
bad_split s d cs ws =
    s == 0 || not (valid_direction d) || ltb (node_count cs) 2 || not (node_count cs == length ws)

module _ {V : Type 0} (visit : ℕ → V → Option V) where
  unfoldable mutual
    pub validate_layout : LayoutNode → List ℕ → V → Option (List ℕ × V)
    validate_layout (pane p) seen v = if p == 0 then none else seen_with seen (visit p v)
    validate_layout (split s d cs ws) seen v =
        if bad_split s d cs ws || contains s seen
        then none
        else validate_children cs ws (s ∷ seen) v

    pub validate_children : Nodes → List ℕ → List ℕ → V → Option (List ℕ × V)
    validate_children nil ws seen v = some (seen, v)
    validate_children (cons c cs) ws seen v =
        if head_weight ws == 0
        then none
        else validate_layout c seen v >>=? λ st. validate_children cs (rest_weights ws) st.0 st.1
