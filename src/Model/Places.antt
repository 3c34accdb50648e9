-- ===== src/Model/Places.antt =====
-- model.go: workspaces, windows, what is stashed, and the focus of a frontend.
use project_ariadne.Base.{ℕ, String, Option, none, List, []}
use project_ariadne.Layout.Tree.{LayoutNode}

pub record Workspace : Type 0 where
  pub id : ℕ
  pub name : String
  pub window_ids : List ℕ

pub record Window : Type 0 where
  pub id : ℕ
  pub workspace_id : ℕ
  pub name : String
  pub layout : Option LayoutNode

-- `original_window_index` is an `int` that the program sets to an index: never negative.
pub record StashedWindow : Type 0 where
  pub window_id : ℕ
  pub origin_workspace_id : ℕ
  pub original_window_index : ℕ

pub record FrontendState : Type 0 where
  pub id : ℕ
  pub workspace_id : ℕ
  pub window_id : ℕ
  pub pane_id : ℕ

-- What a read of a missing key gives.
abbrev pub zero_workspace : Workspace
zero_workspace = record { id = 0; name = ""; window_ids = [] }

abbrev pub zero_window : Window
zero_window = record { id = 0; workspace_id = 0; name = ""; layout = none }
