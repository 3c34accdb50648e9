-- ===== src/Model/Label.antt =====
-- model.go: labels, and the key that a label is stored under.
use Prim.Native.String.{len}
use project_ariadne.Base.{
  ℕ, ◌≡◌, ◌↔◌, String, Bool, true, not, ◌&&◌, ◌==◌, Eq, nat_eq, string_eq, ltb, leb, is_blank,
  has_nul, arith, eq_iff, if◌then◌else◌, string_ltb,
}
use project_ariadne.Model.Tool.{max_identity_bytes}

abbrev pub label_workspace : String
label_workspace = "workspace"

abbrev pub label_window : String
label_window = "window"

abbrev pub label_pane : String
label_pane = "pane"

pub record Label : Type 0 where
  pub target_kind : String
  pub target_id : ℕ
  pub source : String
  pub name : String
  pub value : String

pub record LabelKey : Type 0 where
  pub target_kind : String
  pub target_id : ℕ
  pub source : String
  pub name : String

abbrev pub key_for_label : Label → LabelKey
key_for_label label = record {
  target_kind = label.target_kind;
  target_id = label.target_id;
  source = label.source;
  name = label.name;
}

abbrev pub same_label : LabelKey → LabelKey → Bool
same_label a b =
    a.target_kind == b.target_kind
    && a.target_id == b.target_id
    && a.source == b.source
    && a.name == b.name

pub same_label_iff : (a b : LabelKey) → (same_label a b ≡ true) ↔ (a ≡ b)
same_label_iff a b =
    ground
      (arith, eq_iff a.target_kind b.target_kind, eq_iff a.source b.source, eq_iff a.name b.name)

instance abbrev pub label_key_eq : Eq LabelKey
label_key_eq = record { same = same_label; beq_iff = same_label_iff }

-- A source or a key: not blank, at most 128 bytes, no NUL.
unfoldable pub valid_source : String → Bool
valid_source text = not (is_blank text) && leb (len text) max_identity_bytes && not (has_nul text)

unfoldable pub valid_label : Label → Bool
unfolding valid_source
valid_label label =
    not (label.target_id == 0)
    && valid_source label.source
    && valid_source label.name
    && leb (len label.value) 4096
    && not (has_nul label.value)

-- The order in which a snapshot lists labels.
unfoldable pub label_before : Label → Label → Bool
label_before a b =
    if not (a.target_kind == b.target_kind)
    then string_ltb a.target_kind b.target_kind
    else (if not (a.target_id == b.target_id)
        then ltb a.target_id b.target_id
        else (if not (a.source == b.source)
            then string_ltb a.source b.source
            else string_ltb a.name b.name))
