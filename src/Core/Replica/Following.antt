-- ===== src/Core/Replica/Following.antt =====
-- apply_event.go against operations.go, command by command: renaming, resizing and terminals.
use project_ariadne.Base.{
  ℕ, String, ◌≡◌, refl, sym, ap, ◌∙◌, subst, Bool, true, false, not, some, List, [], ◌∷◌, ◌==◌,
  nat_eq, string_eq, Dict, get, put, has, contains, All, arith, get_or, Bool-cases, inl, inr,
  Option-cases, is_blank, is_some, ◌||◌, any, ltb, ◌&&◌, length,
}
use project_ariadne.Layout.Tree.{LayoutNode}
use project_ariadne.Layout.Edit.{split_by_id, set_split_weights}
use project_ariadne.Model.Pane.{Pane, terminal_id_of, pane_terminal}
use project_ariadne.Model.Terminal.{
  LaunchSpec, TerminalState, TerminalExit, TerminalInstance, valid_terminal,
}
use project_ariadne.Model.Places.{Workspace, Window, zero_workspace}
use project_ariadne.State.Defs.{State}
use project_ariadne.State.Listing.{Listing-get}
use project_ariadne.Core.Events.{Reply, EventKind, window_event, workspace_event}
use project_ariadne.Core.Machine.{Machine, store, announce, ◌>>◌}
use project_ariadne.Core.Workspaces.{rename_workspace, named_elsewhere}
use project_ariadne.Core.Windows.{rename_window, window_named}
use project_ariadne.Core.Panes.{find_split, resize_split, split_count}
use project_ariadne.Core.Terminals.{
  find_terminal, pane_by_terminal_id, has_id, record_changed, terminal_if, activate_terminal,
  fail_terminal_start, prepare_terminal_restart, prepare_terminal_run, begin_terminal_stop,
  record_terminal_exit, forget_terminal_session, has_ended, may_run, starting_terminal,
}
use project_ariadne.Core.Replica.{apply_payload, workspace_key, window_key, pane_key}
use project_ariadne.Core.Replica.Follows.{
  IsListed, FollowsAt, after_refusal, if_found, window-Follows, workspace-Follows,
  commit_terminal-Follows,
}

-- A pane that a state lists, under its ID.
abbrev IsAt : State → ℕ → Pane → Type 0
IsAt s id pane = (pane.id ≡ id) × (contains pane.id s.pane_order ≡ true)

-- `commit_terminal` of a pane that was found.
pane-IsAt :
    (s : State) (id : ℕ) (pane : Pane)
    → IsListed s
    → get id s.panes ≡ some pane
    → IsAt s pane.id pane
pane-IsAt s id pane l e =
    let (same, listed) = Listing-get pane_key s.panes s.pane_order _ id pane l.2 e in
    (refl, subst (λ k. contains k s.pane_order ≡ true) (sym same) listed)

-- The ends of the commands on a workspace and on a window.
workspace_stored :
    (m : Machine) (w : Workspace) (reply : Reply) (kind : EventKind)
    → IsListed m.state
    → contains w.id m.state.workspace_order ≡ true
    → FollowsAt m (
        (store (record m.state { workspaces = put w.id w m.state.workspaces })
            >> announce reply kind (workspace_event w))
          m)
unfolding apply_payload
workspace_stored m w reply kind l c =
    let (equal, l') = workspace-Follows m.state w l c in record { follows = (ap some equal, l') }

window_stored :
    (m : Machine) (w : Window) (reply : Reply) (kind : EventKind)
    → IsListed m.state
    → contains w.id m.state.window_order ≡ true
    → FollowsAt m (
        (store (record m.state { windows = put w.id w m.state.windows })
            >> announce reply kind (window_event w))
          m)
unfolding apply_payload
window_stored m w reply kind l c =
    let (equal, l') = window-Follows m.state w l c in record { follows = (ap some equal, l') }

pub rename_workspace-Follows :
    (id : ℕ) (name : String) (m : Machine)
    → IsListed m.state
    → FollowsAt m (rename_workspace id name m)
unfolding rename_workspace
rename_workspace-Follows id name m l = if_found m (get id m.state.workspaces) _ _ (λ w e.
    after_refusal m (is_blank name) _ _ (λ _.
      after_refusal m (any (named_elsewhere w.id name) m.state.workspaces) _ _ (λ _.
        let (same, listed) =
          Listing-get workspace_key m.state.workspaces m.state.workspace_order _ id w l.0 e in
        workspace_stored m (record w { name = name }) _ _ l
          (subst (λ k. contains k m.state.workspace_order ≡ true) (sym same) listed))))

pub rename_window-Follows :
    (id : ℕ) (name : String) (m : Machine)
    → IsListed m.state
    → FollowsAt m (rename_window id name m)
unfolding rename_window
rename_window-Follows id name m l = if_found m (get id m.state.windows) _ _ (λ w e.
    after_refusal m (is_blank name) _ _ (λ _.
      after_refusal m
        (any (λ other. not (other == w.id) && window_named m.state name other)
          (get_or w.workspace_id zero_workspace m.state.workspaces).window_ids)
        _ _
        (λ _.
          let (same, listed) =
            Listing-get window_key m.state.windows m.state.window_order _ id w l.1 e in
          window_stored m (record w { name = name }) _ _ l
            (subst (λ k. contains k m.state.window_order ≡ true) (sym same) listed))))

-- The window that a split is found in.
find_split-listed :
    (s : State) (split_id : ℕ) (ids : List ℕ) (w : Window) (layout : LayoutNode)
    → IsListed s
    → ((k : ℕ) → contains k ids ≡ true → contains k s.window_order ≡ true)
    → find_split s split_id ids ≡ some (w, layout)
    → contains w.id s.window_order ≡ true
unfolding find_split contains
find_split-listed s split_id [] w layout l within e = ground arith
find_split-listed s split_id (id ∷ ids) w layout l within e =
    elim (Option-cases (get id s.windows)) [
      | inl missing ↦
          ground (arith, missing, l.1.only id, within id (ground (arith, nat_eq.beq_iff id id)))
      | inr (v, found) ↦
          let (same, listed) = Listing-get window_key s.windows s.window_order _ id v l.1 found in
          ground (
            arith,
            found,
            same,
            listed,
            find_split-listed s split_id ids w layout l (λ k h. within k (ground (arith, h))),
          )
    ]

pub resize_split-Follows :
    (split_id : ℕ) (weights : List ℕ) (m : Machine)
    → IsListed m.state
    → FollowsAt m (resize_split split_id weights m)
unfolding resize_split
resize_split-Follows split_id weights m l =
    after_refusal m (split_id == 0 || ltb (length weights) 2) _ _ (λ _.
      after_refusal m (any (λ w. w == 0) weights) _ _ (λ _.
        if_found m (find_split m.state split_id m.state.window_order) _ _ (λ found e.
          after_refusal m (not (split_count (split_by_id split_id found.1) == length weights)) _ _
            (λ _. if_found m (set_split_weights split_id weights found.1) _ _ (λ resized _.
              window_stored m (record found.0 { layout = some resized }) _ _ l
                (find_split-listed m.state split_id m.state.window_order found.0 found.1 l
                  (λ k h. h) e))))))

pub activate_terminal-Follows :
    (pane_id terminal_id : ℕ) (m : Machine)
    → IsListed m.state
    → FollowsAt m (activate_terminal pane_id terminal_id m)
unfolding activate_terminal
activate_terminal-Follows pane_id id m l = after_refusal m (id == 0) _ _ (λ _.
    after_refusal m (is_some (pane_by_terminal_id id m.state)) _ _ (λ _.
      if_found m (get pane_id m.state.panes) _ _ (λ pane e.
        if_found m (terminal_if _ pane.terminal) _ _ (λ t _.
          let (same, listed) = pane-IsAt m.state pane_id pane l e in
          commit_terminal-Follows m pane.id pane _ _ l same listed))))

pub fail_terminal_start-Follows :
    (pane_id : ℕ) (message : String) (m : Machine)
    → IsListed m.state
    → FollowsAt m (fail_terminal_start pane_id message m)
unfolding fail_terminal_start
fail_terminal_start-Follows pane_id message m l =
    if_found m (get pane_id m.state.panes) _ _ (λ pane e.
      if_found m (terminal_if _ pane.terminal) _ _ (λ t _.
        let (same, listed) = pane-IsAt m.state pane_id pane l e in
        commit_terminal-Follows m pane.id pane _ _ l same listed))

pub prepare_terminal_restart-Follows :
    (pane_id : ℕ) (m : Machine)
    → IsListed m.state
    → FollowsAt m (prepare_terminal_restart pane_id m)
unfolding prepare_terminal_restart
prepare_terminal_restart-Follows pane_id m l = if_found m (get pane_id m.state.panes) _ _ (λ pane e.
    if_found m (terminal_if _ pane.terminal) _ _ (λ t _.
      let (same, listed) = pane-IsAt m.state pane_id pane l e in
      commit_terminal-Follows m pane.id pane _ _ l same listed))

pub begin_terminal_stop-Follows :
    (pane_id : ℕ) (m : Machine) → IsListed m.state → FollowsAt m (begin_terminal_stop pane_id m)
unfolding begin_terminal_stop
begin_terminal_stop-Follows pane_id m l = if_found m (get pane_id m.state.panes) _ _ (λ pane e.
    if_found m (terminal_if _ pane.terminal) _ _ (λ t _.
      let (same, listed) = pane-IsAt m.state pane_id pane l e in
      commit_terminal-Follows m pane.id pane _ _ l same listed))

pub prepare_terminal_run-Follows :
    (pane_id : ℕ) (launch : LaunchSpec) (m : Machine)
    → IsListed m.state
    → FollowsAt m (prepare_terminal_run pane_id launch m)
unfolding prepare_terminal_run
prepare_terminal_run-Follows pane_id launch m l =
    if_found m (get pane_id m.state.panes) _ _ (λ pane e.
      after_refusal m (not (pane.kind == pane_terminal)) _ _ (λ _.
        after_refusal m (not (may_run pane.terminal)) _ _ (λ _.
          after_refusal m (not (valid_terminal (starting_terminal launch))) _ _ (λ _.
            let (same, listed) = pane-IsAt m.state pane_id pane l e in
            commit_terminal-Follows m pane.id pane _ _ l same listed))))

-- The entry that a terminal is found in.
find_terminal-entry :
    (id : ℕ) (panes : Dict ℕ Pane) (key : ℕ) (pane : Pane)
    → All (λ (e : ℕ × Pane). e.1.id ≡ e.0) panes
    → find_terminal id panes ≡ some (key, pane)
    → (pane.id ≡ key) × (has key panes ≡ true)
unfolding find_terminal get
find_terminal-entry id [] key pane h e = ground arith
find_terminal-entry id ((k, p) ∷ rest) key pane (q, h) e =
    elim (Bool-cases (has_id id (terminal_id_of p.terminal))) [
      | inl here ↦ (ground (arith, here, q), ground (arith, here, nat_eq.beq_iff k key))
      | inr there ↦
          let (same, held) = find_terminal-entry id rest key pane h (ground (arith, there)) in
          (same, ground (arith, held))
    ]

terminal-IsAt :
    (id : ℕ) (s : State) (key : ℕ) (pane : Pane)
    → IsListed s
    → pane_by_terminal_id id s ≡ some (key, pane)
    → IsAt s key pane
unfolding pane_by_terminal_id
terminal-IsAt id s key pane l e =
    let (same, held) = find_terminal-entry id s.panes key pane l.2.keyed (ground (arith, e)) in
    (same, rw same (sym (l.2.only key) ∙ held))

pub forget_terminal_session-Follows :
    (terminal_id : ℕ) (m : Machine)
    → IsListed m.state
    → FollowsAt m (forget_terminal_session terminal_id m)
unfolding forget_terminal_session
forget_terminal_session-Follows id m l = if_found m (pane_by_terminal_id id m.state) _ _ (λ found e.
    if_found m (terminal_if _ (found.1).terminal) _ _ (λ t _.
      let (same, listed) = terminal-IsAt id m.state found.0 found.1 l e in
      commit_terminal-Follows m found.0 found.1 _ _ l same listed))

record_changed-Follows :
    (m : Machine) (key : ℕ) (pane : Pane) (t : TerminalInstance) (state : TerminalState)
    (exit : TerminalExit) (history same : Bool)
    → IsListed m.state
    → IsAt m.state key pane
    → FollowsAt m (record_changed key pane t state exit history same m)
record_changed-Follows m key pane t state exit history true l at = record { follows = refl }
record_changed-Follows m key pane t state exit history false l (same, listed) =
    after_refusal m
      (not (
        valid_terminal (record t { state = state; exit = some exit; history_available = history })))
      _ _ (λ _. commit_terminal-Follows m key pane _ _ l same listed)

pub record_terminal_exit-Follows :
    (terminal_id : ℕ) (state : TerminalState) (exit : TerminalExit) (history : Bool) (m : Machine)
    → IsListed m.state
    → FollowsAt m (record_terminal_exit terminal_id state exit history m)
unfolding record_terminal_exit
record_terminal_exit-Follows id state exit history m l =
    if_found m (pane_by_terminal_id id m.state) _ _ (λ found e.
      after_refusal m (not (has_ended state)) _ _ (λ _. if_found m (found.1).terminal _ _ (λ t _.
        record_changed-Follows m found.0 found.1 t state exit history _ l
          (terminal-IsAt id m.state found.0 found.1 l e))))
