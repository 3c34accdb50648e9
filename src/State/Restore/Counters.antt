-- ===== src/State/Restore/Counters.antt =====
-- model.go, `stateFromSnapshot` and `cloneState`: the counters come through unchanged.
use project_ariadne.Base.{ℕ, ◌≡◌, refl, ◌∙◌, List, [], ◌∷◌, Option, none, some, ◌>>=?◌, arith}
use project_ariadne.State.Defs.{State}
use project_ariadne.State.Snapshots.{Snapshot}
use project_ariadne.Model.Pane.{Pane}
use project_ariadne.Model.Tool.{ToolInstance}
use project_ariadne.Model.Label.{Label}
use project_ariadne.Model.Attention.{Attention}
use project_ariadne.Model.Places.{Workspace, Window, StashedWindow}
use project_ariadne.Layout.Hint.{StashedPane}
use project_ariadne.State.Snapshots.{Snapshot, snapshot}
use project_ariadne.State.Hierarchy.{validate_hierarchy}
use project_ariadne.State.Restore.{
  if_holds, references_hold, counters_exceed, state_from_snapshot, clone_state, empty_from, add_all,
  add_tool, add_workspace, add_stashed_window, add_stashed_pane, add_window, add_pane, add_label,
  add_attention,
}

-- The revision and the four counters that a snapshot carries.
abbrev pub counters : State → ℕ × ℕ × ℕ × ℕ × ℕ
counters s = (s.revision, s.next_workspace_id, s.next_window_id, s.next_pane_id, s.next_split_id)

-- A result, if there is one, is a state with given counters.
abbrev Gives : {S : Type 0} → (S → State) → ℕ × ℕ × ℕ × ℕ × ℕ → Option S → Type 0
Gives f x r = (s : _) → r ≡ some s → counters (f s) ≡ x

Gives-bind :
    {S T : Type 0} (f : S → State) (g : T → State) (x : ℕ × ℕ × ℕ × ℕ × ℕ) (r : Option S)
    (next : S → Option T)
    → Gives f x r
    → ((s : S) → counters (f s) ≡ x → Gives g x (next s))
    → Gives g x (r >>=? next)
Gives-bind f g x none next h k s e = ground arith
Gives-bind f g x (some t) next h k s e = k t (h t refl) s e

module _ {A S : Type 0} (add : A → S → Option S) (f : S → State) where
  Gives-add_all :
      ((a : A) (s : S) → Gives f (counters (f s)) (add a s))
      → (x : ℕ × ℕ × ℕ × ℕ × ℕ) (as' : List A) (s : S) → counters (f s) ≡ x
      → Gives f x (add_all add as' s)
  unfolding add_all
  Gives-add_all k x [] s h = λ s' e. ground arith
  Gives-add_all k x (a ∷ as') s h =
      Gives-bind f f x (add a s) (add_all add as') (λ t e. k a s t e ∙ h)
        (λ t h'. Gives-add_all k x as' t h')

abbrev itself : State → State
itself s = s

add_pane-keeps :
    (p : Pane) (x : State × List ℕ)
    → Gives (λ (y : State × List ℕ). y.0) (counters x.0) (add_pane p x)
unfolding add_pane
add_pane-keeps p (s, ids) (s', ids') e = ground arith

add_tool-keeps : (t : ToolInstance) (s : State) → Gives itself (counters s) (add_tool t s)
unfolding add_tool
add_tool-keeps t s s' e = ground arith

add_workspace-keeps : (w : Workspace) (s : State) → Gives itself (counters s) (add_workspace w s)
unfolding add_workspace
add_workspace-keeps w s s' e = ground arith

add_window-keeps : (w : Window) (s : State) → Gives itself (counters s) (add_window w s)
unfolding add_window
add_window-keeps w s s' e = ground arith

add_stashed_window-keeps :
    (w : StashedWindow) (s : State) → Gives itself (counters s) (add_stashed_window w s)
unfolding add_stashed_window
add_stashed_window-keeps w s s' e = ground arith

add_stashed_pane-keeps :
    (p : StashedPane) (s : State) → Gives itself (counters s) (add_stashed_pane p s)
unfolding add_stashed_pane
add_stashed_pane-keeps p s s' e = ground arith

add_label-keeps : (l : Label) (s : State) → Gives itself (counters s) (add_label l s)
unfolding add_label
add_label-keeps l s s' e = ground arith

add_attention-keeps : (a : Attention) (s : State) → Gives itself (counters s) (add_attention a s)
unfolding add_attention
add_attention-keeps a s s' e = ground arith

-- The loop of a component after the loops before it.
after :
    {A : Type 0} (add : A → State → Option State) (x : ℕ × ℕ × ℕ × ℕ × ℕ) (r : Option State)
    (as' : List A)
    → ((a : A) (s : State) → Gives itself (counters s) (add a s))
    → Gives itself x r
    → Gives itself x (r >>=? add_all add as')
after add x r as' k h =
    Gives-bind itself itself x r (add_all add as') h (λ s e. Gives-add_all add itself k x as' s e)

-- The last checks only refuse.
checked-Gives :
    (x : ℕ × ℕ × ℕ × ℕ × ℕ) (s : State)
    → counters s ≡ x
    → Gives itself x (validate_hierarchy s >>=? λ _. if_holds (counters_exceed s) s)
checked-Gives x s h s' e = ground arith

referring-Gives :
    (x : ℕ × ℕ × ℕ × ℕ × ℕ) (s : State)
    → counters s ≡ x
    → Gives itself x (if_holds (references_hold s) s)
referring-Gives x s h s' e = ground arith

pub state_from_snapshot-counters :
    (snap : Snapshot) → Gives itself (counters (empty_from snap)) (state_from_snapshot snap)
unfolding state_from_snapshot
state_from_snapshot-counters snap =
    let x = counters (empty_from snap) in
    Gives-bind itself itself x _ _
      (after add_window x _ snap.windows add_window-keeps (
        after add_stashed_pane x _ snap.stashed_panes add_stashed_pane-keeps (
          after add_stashed_window x _ snap.stashed_windows add_stashed_window-keeps (
            after add_workspace x _ snap.workspaces add_workspace-keeps (
              Gives-add_all add_tool itself add_tool-keeps x snap.tool_instances (empty_from snap)
                refl)))))
      (λ s h.
        Gives-bind (λ (y : State × List ℕ). y.0) itself x _ _
          (Gives-add_all add_pane (λ (y : State × List ℕ). y.0) add_pane-keeps x snap.panes (s, [])
            h)
          (λ (y : State × List ℕ) h'.
            Gives-bind itself itself x _ _
              (after add_attention x _ snap.attentions add_attention-keeps
                (after add_label x _ snap.labels add_label-keeps (referring-Gives x y.0 h')))
              (checked-Gives x)))

abbrev retaining : State → State → Option State
retaining source s = some (record s { next_attention_id = source.next_attention_id })

retaining-Gives :
    (x : ℕ × ℕ × ℕ × ℕ × ℕ) (source s : State)
    → counters s ≡ x
    → Gives itself x (retaining source s)
retaining-Gives x source s h s' e = ground arith

-- A copy of a state, if there is one, has its revision and its counters.
pub clone_state-counters : (s s' : State) → clone_state s ≡ some s' → counters s' ≡ counters s
unfolding clone_state snapshot
clone_state-counters s s' e =
    Gives-bind itself itself (counters s) (state_from_snapshot (snapshot s)) (retaining s)
      (state_from_snapshot-counters (snapshot s)) (retaining-Gives (counters s) s) s' e
