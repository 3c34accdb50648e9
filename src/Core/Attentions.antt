-- ===== src/Core/Attentions.antt =====
-- operations.go: the commands on attentions. `limit` is Config.MaxAttentionEntries.
pub mod Eviction
use project_ariadne.Base.{
  ℕ, zero, suc, ◌+◌, ◌%◌, ◌^◌, String, Bool, true, false, not, ◌&&◌, ◌||◌, Option, none, some, List,
  [], ◌∷◌, ◌==◌, nat_eq, string_eq, get, has, put, delete, values, if◌then◌else◌, select, sort, ltb,
  leb, length, is_some,
}
use project_ariadne.Model.Errors.{invalid_argument, invalid_state, not_found}
use project_ariadne.Model.Label.{valid_source}
use project_ariadne.Model.Attention.{
  Attention, key_for_attention, attention_key_eq, valid_attention,
}
use project_ariadne.State.Defs.{State}
use project_ariadne.State.Snapshots.{attention_before}
use project_ariadne.State.Hierarchy.{beq_bool}
use project_ariadne.Core.Events.{
  attention_raised, attention_acknowledged, attention_source_cleared, attention_event,
  attentions_event, attention_result, remove_attentions_result,
}
use project_ariadne.Core.Machine.{
  Exec, Outcome, ◌>>=◌, ◌>>◌, refuse_if, or_fail, current, store, announce, quietly,
}

-- Whether the second is evicted rather than the first: an acknowledged one first, then the one
-- updated longest ago, then the one with the smaller ID.
unfoldable pub evicted_before : Attention → Attention → Bool
evicted_before selected candidate =
    not (is_some selected.acknowledged_at) && is_some candidate.acknowledged_at
    || beq_bool (is_some selected.acknowledged_at) (is_some candidate.acknowledged_at)
      && (ltb candidate.updated_at selected.updated_at
          || candidate.updated_at == selected.updated_at && ltb candidate.id selected.id)

-- The loop over the candidates; an ID of 0 stands for no selection yet in the source.
unfoldable pub select_evicted : Option Attention → List Attention → Option Attention
select_evicted selected [] = selected
select_evicted none (a ∷ as') = select_evicted (some a) as'
select_evicted (some selected) (a ∷ as') =
    select_evicted (some (if evicted_before selected a then a else selected)) as'

unfoldable pub without_attention : Attention → State → State
without_attention a s = record s {
  attentions = delete a.id s.attentions;
  attention_keys = delete (key_for_attention a) s.attention_keys;
}

abbrev cons_removed : Attention → State × List Attention → State × List Attention
cons_removed a (s, removed) = (s, a ∷ removed)

-- `evictAttentions`; each round removes one entry, so as many rounds as there are entries suffice.
abbrev pub evict_chosen :
    ℕ → State → (Attention → State × List Attention) → Option Attention → State × List Attention
evict_chosen limit s rest none = (s, [])
evict_chosen limit s rest (some a) =
    let after = rest a in if leb (length s.attentions) limit then (s, []) else cons_removed a after

unfoldable pub evict_rounds : ℕ → ℕ → State → State × List Attention
evict_rounds zero limit s = (s, [])
evict_rounds (suc rounds) limit s =
    evict_chosen limit s (λ a. evict_rounds rounds limit (without_attention a s))
      (select_evicted none (values s.attentions))

unfoldable pub evict_attentions : ℕ → State → State × List Attention
unfolding evict_rounds
evict_attentions limit s = evict_rounds (length s.attentions) limit s

pub record RaiseAttention : Type 0 where
  pub pane_id : ℕ
  pub source : String
  pub key : String
  pub class : String
  pub severity : String
  pub message : String
  pub occurred_at : ℕ

unfoldable pub probe_attention : RaiseAttention → Attention
probe_attention c = record {
  id = 1;
  pane_id = c.pane_id;
  source = c.source;
  key = c.key;
  class = c.class;
  severity = c.severity;
  message = c.message;
  occurred_at = c.occurred_at;
  updated_at = c.occurred_at;
  acknowledged_at = none;
}

abbrev same_raise : Attention → RaiseAttention → Bool
same_raise existing c =
    existing.class == c.class
    && existing.severity == c.severity
    && existing.message == c.message
    && not (is_some existing.acknowledged_at)

unfoldable pub raised_again : Attention → RaiseAttention → Attention
raised_again existing c = record existing {
  class = c.class;
  severity = c.severity;
  message = c.message;
  updated_at = c.occurred_at;
  acknowledged_at = none;
}

-- The key is known: the entry is raised again.
unfoldable pub raise_existing : State → ℕ → Attention → RaiseAttention → Exec Outcome
unfolding raised_again
raise_existing s id existing c = do
  refuse_if (ltb c.occurred_at existing.updated_at) invalid_argument
  if same_raise existing c then quietly (attention_result existing false) else do
    let raised = raised_again existing c
    store (record s { attentions = put id raised s.attentions })
    announce (attention_result raised true) attention_raised (attention_event raised [])

abbrev announce_raised : Attention → State × List Attention → Exec Outcome
announce_raised a (s, removed) = do
  store s
  announce (attention_result a true) attention_raised (attention_event a removed)

unfoldable pub with_attention : Attention → State → State
with_attention a s = record s {
  next_attention_id = (s.next_attention_id + 1) % 2 ^ 64;
  attentions = put a.id a s.attentions;
  attention_keys = put (key_for_attention a) a.id s.attention_keys;
}

-- A new entry, and what it drives out. The counter wraps to 0, and is refused from then on.
unfoldable pub raise_new : ℕ → State → Attention → Exec Outcome
unfolding with_attention evict_attentions
raise_new limit s probe = do
  refuse_if (s.next_attention_id == 0) invalid_state
  let a = record probe { id = s.next_attention_id }
  announce_raised a (evict_attentions limit (with_attention a s))

abbrev zero_attention : Attention
zero_attention = record {
  id = 0;
  pane_id = 0;
  source = "";
  key = "";
  class = "";
  severity = "";
  message = "";
  occurred_at = 0;
  updated_at = 0;
  acknowledged_at = none;
}

abbrev attention_or_zero : Option Attention → Attention
attention_or_zero none = zero_attention
attention_or_zero (some a) = a

-- The source reads the entry under the ID that the key map gives and writes it back under that ID.
unfoldable pub raise_under : ℕ → State → Attention → RaiseAttention → Option ℕ → Exec Outcome
unfolding raise_existing raise_new
raise_under limit s probe c none = raise_new limit s probe
raise_under limit s probe c (some id) =
    raise_existing s id (attention_or_zero (get id s.attentions)) c

unfoldable pub raise_attention : ℕ → RaiseAttention → Exec Outcome
unfolding probe_attention raise_under
raise_attention limit c = do
  refuse_if (c.occurred_at == 0) invalid_argument
  s ← current
  refuse_if (not (has c.pane_id s.panes) || not (valid_attention (probe_attention c)))
      invalid_argument
  raise_under limit s (probe_attention c) c
      (get (key_for_attention (probe_attention c)) s.attention_keys)

unfoldable pub acknowledge_attention : ℕ → ℕ → Exec Outcome
acknowledge_attention id at = do
  s ← current
  a ← or_fail (get id s.attentions) not_found
  refuse_if (at == 0 || ltb at a.updated_at) invalid_argument
  if is_some a.acknowledged_at then quietly (attention_result a false) else do
    let acknowledged = record a { acknowledged_at = some at }
    store (record s { attentions = put a.id acknowledged s.attentions })
    announce (attention_result acknowledged true) attention_acknowledged
        (attention_event acknowledged [])

-- The state without the attentions that a test names, and these by ID.
unfoldable pub without_attentions : List Attention → State → State
without_attentions [] s = s
without_attentions (a ∷ as') s = without_attentions as' (without_attention a s)

abbrev pub removed_attentions : (Attention → Bool) → State → List Attention
removed_attentions gone s = sort attention_before (select gone (values s.attentions))

abbrev announce_cleared : List Attention → Exec Outcome
announce_cleared [] = quietly (remove_attentions_result [])
announce_cleared (a ∷ as') =
    announce (remove_attentions_result (a ∷ as')) attention_source_cleared
      (attentions_event (a ∷ as'))

abbrev pub raised_by : String → Attention → Bool
raised_by source a = a.source == source

unfoldable pub remove_attentions_by_source : String → Exec Outcome
unfolding without_attentions
remove_attentions_by_source source = do
  s ← current
  refuse_if (not (valid_source source)) invalid_argument
  let removed = removed_attentions (raised_by source) s
  store (without_attentions removed s)
  announce_cleared removed
