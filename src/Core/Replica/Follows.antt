-- ===== src/Core/Replica/Follows.antt =====
-- apply_event.go against operations.go: at the commands that change one record in its place, a
-- replica that applies the event shows what Core's own snapshot shows.
use project_ariadne.Base.{
  ℕ, ◌≡◌, refl, sym, ap, subst, Bool, true, false, Option, none, some, List, nat_eq, Dict, put,
  contains, get_or, map,
}
use project_ariadne.Model.Errors.{CoreError, Result, ok, err}
use project_ariadne.Model.Pane.{Pane, zero_pane}
use project_ariadne.Model.Terminal.{TerminalInstance}
use project_ariadne.Model.Places.{Workspace, Window, zero_workspace, zero_window}
use project_ariadne.State.Defs.{State}
use project_ariadne.State.Snapshots.{snapshot}
use project_ariadne.State.Listing.{Listing, Listing-read, Listing-reread}
use project_ariadne.Core.Events.{EventKind}
use project_ariadne.Core.Machine.{Machine, Exec, Outcome, refuse_if, or_fail, ◌>>=◌, ◌>>◌}
use project_ariadne.Core.Terminals.{commit_terminal, put_terminal}
use project_ariadne.Core.Replica.{
  apply_payload, upsert, upsert_pane, upsert_window, upsert_workspace, workspace_key, window_key,
  pane_key,
}
use project_ariadne.Core.Replica.Upserts.{Listing-put}

-- The three maps that a snapshot reads in order, with their order lists.
abbrev pub IsListed : State → Type 0
IsListed s =
    Listing workspace_key s.workspaces s.workspace_order (snapshot s).workspaces
    × Listing window_key s.windows s.window_order (snapshot s).windows
    × Listing pane_key s.panes s.pane_order (snapshot s).panes

-- What an answer means for a replica: without an event the state is as before, and else the event
-- turns the old snapshot into the new one.
abbrev pub Follows : Machine → Result Outcome × Machine → Type 0
Follows m (err e, m') = Unit
Follows m (ok (reply, none), m') = m'.state ≡ m.state
Follows m (ok (reply, some event), m') =
    (apply_payload event.kind event.payload (snapshot m.state) ≡ some (snapshot m'.state))
    × IsListed m'.state

pub record FollowsAt (m : Machine) (r : Result Outcome × Machine) : Type 0 where
  pub follows : Follows m r

pub after_refusal :
    (m : Machine) (b : Bool) (e : CoreError) (next : Exec Outcome)
    → (b ≡ false → FollowsAt m (next m))
    → FollowsAt m ((refuse_if b e >> next) m)
after_refusal m true e next k = record { follows = tt }
after_refusal m false e next k = k refl

pub if_found :
    {A : Type 0} (m : Machine) (r : Option A) (e : CoreError) (next : A → Exec Outcome)
    → ((a : A) → r ≡ some a → FollowsAt m (next a m))
    → FollowsAt m ((or_fail r e >>= next) m)
if_found m none e next k = record { follows = tt }
if_found m (some a) e next k = k a refl

module _ {A : Type 0} (key : A → ℕ) (zero : A) where
  -- The list after a record is put in its place.
  reread :
      (v : A) (m : Dict ℕ A) (order : List ℕ) (xs : List A)
      → contains (key v) order ≡ true
      → Listing key m order xs
      → map (λ id. get_or id zero (put (key v) v m)) order ≡ upsert key v xs
  reread v m order xs c l =
      Listing-read key zero (put (key v) v m) order (upsert key v xs)
        (Listing-put key v m order xs c l)

  relisted :
      (v : A) (m : Dict ℕ A) (order : List ℕ) (xs : List A)
      → contains (key v) order ≡ true
      → Listing key m order xs
      → Listing key (put (key v) v m) order (map (λ id. get_or id zero (put (key v) v m)) order)
  relisted v m order xs c l =
      Listing-reread key zero (put (key v) v m) order (upsert key v xs)
        (Listing-put key v m order xs c l)

pub pane-Follows :
    (s : State) (p : Pane)
    → IsListed s
    → contains p.id s.pane_order ≡ true
    → let s' = record s { panes = put p.id p s.panes } in
      (upsert_pane p (snapshot s) ≡ snapshot s') × IsListed s'
unfolding snapshot upsert_pane
pane-Follows s p (ws, wins, ps) c = (
  rw (sym (reread pane_key zero_pane p s.panes s.pane_order _ c ps)) refl,
  (ws, wins, relisted pane_key zero_pane p s.panes s.pane_order _ c ps),
)

pub window-Follows :
    (s : State) (w : Window)
    → IsListed s
    → contains w.id s.window_order ≡ true
    → let s' = record s { windows = put w.id w s.windows } in
      (upsert_window w (snapshot s) ≡ snapshot s') × IsListed s'
unfolding snapshot upsert_window
window-Follows s w (ws, wins, ps) c = (
  rw (sym (reread window_key zero_window w s.windows s.window_order _ c wins)) refl,
  (ws, relisted window_key zero_window w s.windows s.window_order _ c wins, ps),
)

pub workspace-Follows :
    (s : State) (w : Workspace)
    → IsListed s
    → contains w.id s.workspace_order ≡ true
    → let s' = record s { workspaces = put w.id w s.workspaces } in
      (upsert_workspace w (snapshot s) ≡ snapshot s') × IsListed s'
unfolding snapshot upsert_workspace
workspace-Follows s w (ws, wins, ps) c = (
  rw (sym (reread workspace_key zero_workspace w s.workspaces s.workspace_order _ c ws)) refl,
  (relisted workspace_key zero_workspace w s.workspaces s.workspace_order _ c ws, wins, ps),
)

pub commit_terminal-Follows :
    (m : Machine) (pane_id : ℕ) (pane : Pane) (t : TerminalInstance) (kind : EventKind)
    → IsListed m.state
    → pane.id ≡ pane_id
    → contains pane.id m.state.pane_order ≡ true
    → FollowsAt m (commit_terminal pane_id pane t kind m)
unfolding apply_payload put_terminal
commit_terminal-Follows m pane_id pane t kind l e c =
    subst (λ id. FollowsAt m (commit_terminal id pane t kind m)) e
      (let (same, listed) = pane-Follows m.state (record pane { terminal = some t }) l c in
        record { follows = (ap some same, listed) })
