-- ===== src/Model/Attention.antt =====
-- model.go: attentions. A time is a natural number, 0 the zero time.
use Prim.Native.String.{len}
use project_ariadne.Base.{
  ℕ, ◌≡◌, ◌↔◌, String, Bool, true, false, not, ◌&&◌, ◌||◌, Option, none, some, ◌==◌, Eq, nat_eq,
  string_eq, ltb, leb, has_nul, arith, eq_iff,
}
use project_ariadne.Model.Label.{valid_source}

abbrev pub max_attention_message_bytes : ℕ
max_attention_message_bytes = 4096

pub record Attention : Type 0 where
  pub id : ℕ
  pub pane_id : ℕ
  pub source : String
  pub key : String
  pub class : String
  pub severity : String
  pub message : String
  pub occurred_at : ℕ
  pub updated_at : ℕ
  pub acknowledged_at : Option ℕ

pub record AttentionKey : Type 0 where
  pub source : String
  pub pane_id : ℕ
  pub key : String

abbrev pub key_for_attention : Attention → AttentionKey
key_for_attention a = record { source = a.source; pane_id = a.pane_id; key = a.key }

abbrev pub same_attention : AttentionKey → AttentionKey → Bool
same_attention a b = a.source == b.source && a.pane_id == b.pane_id && a.key == b.key

pub same_attention_iff : (a b : AttentionKey) → (same_attention a b ≡ true) ↔ (a ≡ b)
same_attention_iff a b = ground (arith, eq_iff a.source b.source, eq_iff a.key b.key)

instance abbrev pub attention_key_eq : Eq AttentionKey
attention_key_eq = record { same = same_attention; beq_iff = same_attention_iff }

abbrev pub acknowledged_before : Option ℕ → ℕ → Bool
acknowledged_before none at = false
acknowledged_before (some acknowledged) at = ltb acknowledged at

unfoldable pub valid_class : String → Bool
valid_class class =
    class == "waiting" || class == "completed" || class == "warning" || class == "error"

unfoldable pub valid_severity : String → Bool
valid_severity severity =
    severity == "info" || severity == "warning" || severity == "error" || severity == "critical"

unfoldable pub valid_attention : Attention → Bool
unfolding valid_class valid_severity
valid_attention a =
    not (a.id == 0)
    && not (a.pane_id == 0)
    && valid_source a.source
    && valid_source a.key
    && leb (len a.message) max_attention_message_bytes
    && not (has_nul a.message)
    && not (a.occurred_at == 0)
    && not (a.updated_at == 0)
    && not (ltb a.updated_at a.occurred_at)
    && not (acknowledged_before a.acknowledged_at a.updated_at)
    && valid_class a.class
    && valid_severity a.severity
