-- ===== src/Core/Commands/Frame/Content.antt =====
-- The frame of the commands on labels, attentions, Tools and terminals.
use project_ariadne.Base.{
  values, length, get, ℕ, zero, suc, String, Bool, List, [], ◌∷◌, Option, none, some, arith,
}
use project_ariadne.Model.Label.{Label}
use project_ariadne.Model.Tool.{ToolDescriptor}
use project_ariadne.Model.Attention.{Attention, key_for_attention, attention_key_eq}
use project_ariadne.Model.Terminal.{LaunchSpec, TerminalState, TerminalExit}
use project_ariadne.State.Defs.{State}
use project_ariadne.Core.Labels.{set_label, remove_label, remove_labels_by_source}
use project_ariadne.Core.Attentions.{
  RaiseAttention, raise_attention, acknowledge_attention, remove_attentions_by_source,
  without_attentions, without_attention, evict_chosen, probe_attention, evict_rounds,
  evict_attentions, raise_existing, raise_new, raise_under, with_attention, removed_attentions,
  raised_by, select_evicted,
}
use project_ariadne.Core.Tools.{update_tool_state}
use project_ariadne.Core.Terminals.{
  activate_terminal, fail_terminal_start, prepare_terminal_restart, prepare_terminal_run,
  begin_terminal_stop, record_terminal_exit, forget_terminal_session, put_terminal,
}
use project_ariadne.Core.Machine.{Machine}
use project_ariadne.Core.Commands.Frame.{Framed, IsFramed, SameCounters}

pub set_label-Framed : (label : Label) → Framed (set_label label)
unfolding set_label
set_label-Framed label m = ground arith

pub remove_label-Framed :
    (kind : String) (id : ℕ) (source name : String) → Framed (remove_label kind id source name)
unfolding remove_label
remove_label-Framed kind id source name m = ground arith

pub remove_labels_by_source-Framed : (source : String) → Framed (remove_labels_by_source source)
unfolding remove_labels_by_source
remove_labels_by_source-Framed source m = ground arith

pub update_tool_state-Framed :
    (d : ToolDescriptor) (g v : ℕ) (state : String) → Framed (update_tool_state d g v state)
unfolding update_tool_state
update_tool_state-Framed d g v state m = ground arith

pub activate_terminal-Framed : (pane id : ℕ) → Framed (activate_terminal pane id)
unfolding activate_terminal put_terminal
activate_terminal-Framed pane id m = ground arith

pub fail_terminal_start-Framed :
    (pane : ℕ) (message : String) → Framed (fail_terminal_start pane message)
unfolding fail_terminal_start put_terminal
fail_terminal_start-Framed pane message m = ground arith

pub prepare_terminal_restart-Framed : (pane : ℕ) → Framed (prepare_terminal_restart pane)
unfolding prepare_terminal_restart put_terminal
prepare_terminal_restart-Framed pane m = ground arith

pub prepare_terminal_run-Framed :
    (pane : ℕ) (launch : LaunchSpec) → Framed (prepare_terminal_run pane launch)
unfolding prepare_terminal_run put_terminal
prepare_terminal_run-Framed pane launch m = ground arith

pub begin_terminal_stop-Framed : (pane : ℕ) → Framed (begin_terminal_stop pane)
unfolding begin_terminal_stop put_terminal
begin_terminal_stop-Framed pane m = ground arith

pub record_terminal_exit-Framed :
    (id : ℕ) (state : TerminalState) (exit : TerminalExit) (history : Bool)
    → Framed (record_terminal_exit id state exit history)
unfolding record_terminal_exit put_terminal
record_terminal_exit-Framed id state exit history m = ground arith

pub forget_terminal_session-Framed : (id : ℕ) → Framed (forget_terminal_session id)
unfolding forget_terminal_session put_terminal
forget_terminal_session-Framed id m = ground arith

pub acknowledge_attention-Framed : (id at : ℕ) → Framed (acknowledge_attention id at)
unfolding acknowledge_attention
acknowledge_attention-Framed id at m = ground arith

pub without_attentions-SameCounters :
    (gone : List Attention) (s : State) → SameCounters s (without_attentions gone s)
unfolding without_attentions without_attention
without_attentions-SameCounters [] s = ground arith
without_attentions-SameCounters (a ∷ rest) s =
    ground (arith, without_attentions-SameCounters rest (without_attention a s))

pub remove_attentions_by_source-Framed :
    (source : String) → Framed (remove_attentions_by_source source)
unfolding remove_attentions_by_source
remove_attentions_by_source-Framed source m =
    ground (
      arith,
      without_attentions-SameCounters (removed_attentions (raised_by source) m.state) m.state,
    )

-- The counters survive a choice of the entry to evict.
evict_chosen-SameCounters :
    (limit : ℕ) (s : State) (rest : Attention → State × List Attention) (chosen : Option Attention)
    → ((a : Attention) → SameCounters s (rest a).0)
    → SameCounters s (evict_chosen limit s rest chosen).0
evict_chosen-SameCounters limit s rest none k = ground arith
evict_chosen-SameCounters limit s rest (some a) k = ground (arith, k a)

evict_rounds-SameCounters :
    (rounds limit : ℕ) (s : State) → SameCounters s (evict_rounds rounds limit s).0
unfolding evict_rounds without_attention
evict_rounds-SameCounters zero limit s = ground arith
evict_rounds-SameCounters (suc rounds) limit s =
    evict_chosen-SameCounters limit s (λ a. evict_rounds rounds limit (without_attention a s))
      (select_evicted none (values s.attentions))
      (λ a. ground (arith, evict_rounds-SameCounters rounds limit (without_attention a s)))

evict_attentions-SameCounters :
    (limit : ℕ) (s : State) → SameCounters s (evict_attentions limit s).0
unfolding evict_attentions
evict_attentions-SameCounters limit s = evict_rounds-SameCounters (length s.attentions) limit s

raise_new-Framed :
    (limit : ℕ) (a : Attention) (m : Machine) → IsFramed m (raise_new limit m.state a m)
unfolding raise_new with_attention
raise_new-Framed limit a m = ground (
  arith,
  evict_attentions-SameCounters limit
      (with_attention (record a { id = m.state.next_attention_id }) m.state),
)

raise_under-Framed :
    (limit : ℕ) (a : Attention) (c : RaiseAttention) (id : Option ℕ) (m : Machine)
    → IsFramed m (raise_under limit m.state a c id m)
unfolding raise_under raise_existing
raise_under-Framed limit a c none m = raise_new-Framed limit a m
raise_under-Framed limit a c (some id) m = ground arith

pub raise_attention-Framed : (limit : ℕ) (c : RaiseAttention) → Framed (raise_attention limit c)
unfolding raise_attention
raise_attention-Framed limit c m = ground (
  arith,
  raise_under-Framed limit (probe_attention c) c
      (get (key_for_attention (probe_attention c)) m.state.attention_keys) m,
)
