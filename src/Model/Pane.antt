-- ===== src/Model/Pane.antt =====
-- model.go and command.go: panes and the specification of a new one.
use project_ariadne.Base.{
  ℕ, String, Bool, true, false, ◌&&◌, ◌||◌, Option, none, some, ◌==◌, string_eq, is_some, not,
}
use project_ariadne.Model.Terminal.{TerminalInstance, valid_terminal}
use project_ariadne.Model.Tool.{ToolDescriptor, ToolInstance, valid_tool_descriptor}

abbrev pub pane_terminal : String
pane_terminal = "terminal"

abbrev pub pane_tool : String
pane_tool = "tool"

-- `presentation` is the chrome hint, the only field of PanePresentation.
pub record Pane : Type 0 where
  pub transient : Bool
  pub id : ℕ
  pub window_id : ℕ
  pub kind : String
  pub title : String
  pub presentation : String
  pub terminal : Option TerminalInstance
  pub tool : Option ToolDescriptor

abbrev pub zero_pane : Pane
zero_pane = record {
  transient = false;
  id = 0;
  window_id = 0;
  kind = "";
  title = "";
  presentation = "";
  terminal = none;
  tool = none;
}

pub record PaneSpec : Type 0 where
  pub kind : String
  pub title : String
  pub presentation : String
  pub terminal : Option TerminalInstance
  pub tool : Option ToolInstance

unfoldable pub valid_pane_presentation : String → Bool
valid_pane_presentation chrome = chrome == "" || chrome == "border" || chrome == "none"

abbrev pub valid_if_some : {A : Type 0} → (A → Bool) → Option A → Bool
valid_if_some valid none = true
valid_if_some valid (some a) = valid a

unfoldable pub valid_pane : Pane → Bool
valid_pane pane =
    valid_pane_presentation pane.presentation
    && (pane.kind == pane_terminal
          && not (is_some pane.tool)
          && valid_if_some valid_terminal pane.terminal
        || pane.kind == pane_tool
          && not (is_some pane.terminal)
          && valid_if_some valid_tool_descriptor pane.tool)

-- `pane.Terminal.ID` where both pointers are set.
abbrev pub terminal_id_of : Option TerminalInstance → Option ℕ
terminal_id_of none = none
terminal_id_of (some t) = t.id

abbrev pub descriptor_of : Option ToolInstance → Option ToolDescriptor
descriptor_of none = none
descriptor_of (some tool) = some tool.descriptor

unfoldable pub pane_from_spec : ℕ → ℕ → PaneSpec → Pane
pane_from_spec id window_id spec = record {
  transient = false;
  id = id;
  window_id = window_id;
  kind = spec.kind;
  title = spec.title;
  presentation = spec.presentation;
  terminal = spec.terminal;
  tool = descriptor_of spec.tool;
}
