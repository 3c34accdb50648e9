-- ===== src/Layout/Hint.antt =====
-- stash.go, `paneStashHint`: where a pane stood, for putting it back.
use project_ariadne.Base.{
  ℕ, Bool, true, false, Option, none, some, List, ◌==◌, if◌then◌else◌, nat_eq,
}
use project_ariadne.Layout.Tree.{
  SplitDirection, LayoutNode, pane, split, Nodes, nil, cons, is_pane, first_pane,
}
use project_ariadne.Layout.Edit.{head_weight, rest_weights}

-- A target of 0 says that no neighbour is known.
pub record StashedPane : Type 0 where
  pub pane_id : ℕ
  pub origin_workspace_id : ℕ
  pub origin_window_id : ℕ
  pub target_pane_id : ℕ
  pub direction : SplitDirection
  pub before : Bool
  pub weight : ℕ
  pub target_weight : ℕ
  pub original_split_id : ℕ

abbrev pub empty_hint : StashedPane
empty_hint = record {
  pane_id = 0;
  origin_workspace_id = 0;
  origin_window_id = 0;
  target_pane_id = 0;
  direction = "";
  before = false;
  weight = 0;
  target_weight = 0;
  original_split_id = 0;
}

abbrev pub placement : ℕ → SplitDirection → Bool → ℕ → ℕ → ℕ → StashedPane
placement target direction before weight target_weight split_id = record empty_hint {
  target_pane_id = target;
  direction = direction;
  before = before;
  weight = weight;
  target_weight = target_weight;
  original_split_id = split_id;
}

-- The hint at a leaf among its siblings: the child before it and that one's weight, if there is
-- one, else the child behind it; an only child has none.
abbrev pub hint_beside :
    ℕ → SplitDirection → Option (LayoutNode × ℕ) → ℕ → Nodes → List ℕ → Option StashedPane
hint_beside s d (some (c, w)) weight cs ws = some (placement (first_pane c) d false weight w s)
hint_beside s d none weight (cons c cs) ws =
    some (placement (first_pane c) d true weight (head_weight ws) s)
hint_beside s d none weight nil ws = none

abbrev pub hint_or : Option StashedPane → Option StashedPane → Option StashedPane
hint_or (some hint) rest = some hint
hint_or none rest = rest

-- A leaf alone in its window has the empty hint; `none` says that the pane was not found.
unfoldable mutual
  pub pane_stash_hint : ℕ → LayoutNode → Option StashedPane
  pane_stash_hint id (pane p) = if p == id then some empty_hint else none
  pane_stash_hint id (split s d cs ws) = stash_hint_among id s d none cs ws

  pub stash_hint_among :
      ℕ → ℕ → SplitDirection → Option (LayoutNode × ℕ) → Nodes → List ℕ → Option StashedPane
  stash_hint_among id s d previous nil ws = none
  stash_hint_among id s d previous (cons c cs) ws =
      if is_pane id c
      then hint_beside s d previous (head_weight ws) cs (rest_weights ws)
      else hint_or (pane_stash_hint id c)
          (stash_hint_among id s d (some (c, head_weight ws)) cs (rest_weights ws))
