-- ===== src/Core/Replica/Exact.antt =====
-- apply_event.go, `ApplyEvent`: what it accepts, and that it shows what Core shows.
use project_ariadne.Base.{
  ℕ, ◌+◌, ◌%◌, ◌^◌, ◌≡◌, subst, Bool, true, Option, none, some, nat_eq, if◌then◌else◌, arith,
  beq_self,
}
use project_ariadne.Model.Errors.{ok}
use project_ariadne.State.Defs.{State}
use project_ariadne.State.Snapshots.{Snapshot, snapshot}
use project_ariadne.State.Listing.{Listing-reread}
use project_ariadne.State.Restore.{state_from_snapshot, validate_snapshot}
use project_ariadne.State.Restore.Listed.{state_from_snapshot-Built}
use project_ariadne.Model.Pane.{zero_pane}
use project_ariadne.Model.Places.{zero_workspace, zero_window}
use project_ariadne.Core.Events.{Event, Reply}
use project_ariadne.Core.Machine.{Machine}
use project_ariadne.Core.Commands.{
  Command, execute, rename_workspace_command, rename_window_command, resize_split_command,
  record_terminal_exit_command, forget_terminal_session_command, activate_terminal_command,
  fail_terminal_start_command, prepare_terminal_restart_command, prepare_terminal_run_command,
  begin_terminal_stop_command,
}
use project_ariadne.Core.Commands.Lifecycle.{is_terminal_command}
use project_ariadne.Core.Replica.{apply_event, accept_next, workspace_key, window_key, pane_key}
use project_ariadne.Core.Replica.Follows.{IsListed, FollowsAt, Follows}
use project_ariadne.Core.Replica.Following.{
  rename_workspace-Follows, rename_window-Follows, resize_split-Follows, activate_terminal-Follows,
  fail_terminal_start-Follows, prepare_terminal_restart-Follows, prepare_terminal_run-Follows,
  begin_terminal_stop-Follows, record_terminal_exit-Follows, forget_terminal_session-Follows,
}

-- `ApplyEvent` returns a snapshot only for the event with the next revision, and the snapshot then
-- has that revision and passes `ValidateSnapshot`.
pub apply_event-next :
    (snap snap' : Snapshot) (event : Event)
    → apply_event snap event ≡ some snap'
    → (event.revision ≡ (snap.revision + 1) % 2 ^ 64)
      × (snap'.revision ≡ event.revision)
      × (validate_snapshot snap' ≡ true)
unfolding apply_event accept_next
apply_event-next snap snap' event e = (
  ground (arith, nat_eq.beq_iff event.revision ((snap.revision + 1) % 2 ^ 64)),
  ground arith,
  ground arith,
)

-- The commands that change one record in its place.
abbrev pub is_replacing : Command → Bool
is_replacing (rename_workspace_command id name) = true
is_replacing (rename_window_command id name) = true
is_replacing (resize_split_command id weights) = true
is_replacing command = is_terminal_command command

pub execute-Follows :
    (limit : ℕ) (command : Command) (m : Machine)
    → is_replacing command ≡ true
    → IsListed m.state
    → FollowsAt m (execute limit command m)
unfolding execute
execute-Follows limit (rename_workspace_command id name) m c l =
    rename_workspace-Follows id name m l
execute-Follows limit (rename_window_command id name) m c l = rename_window-Follows id name m l
execute-Follows limit (resize_split_command id weights) m c l = resize_split-Follows id weights m l
execute-Follows limit (record_terminal_exit_command id s x h) m c l =
    record_terminal_exit-Follows id s x h m l
execute-Follows limit (forget_terminal_session_command id) m c l =
    forget_terminal_session-Follows id m l
execute-Follows limit (activate_terminal_command p id) m c l = activate_terminal-Follows p id m l
execute-Follows limit (fail_terminal_start_command p e) m c l = fail_terminal_start-Follows p e m l
execute-Follows limit (prepare_terminal_restart_command p) m c l =
    prepare_terminal_restart-Follows p m l
execute-Follows limit (prepare_terminal_run_command p launch) m c l =
    prepare_terminal_run-Follows p launch m l
execute-Follows limit (begin_terminal_stop_command p) m c l = begin_terminal_stop-Follows p m l
execute-Follows limit _ m c l = ground (arith, c)

-- A snapshot, if it is valid.
abbrev pub if_valid : Snapshot → Option Snapshot
if_valid snap = if validate_snapshot snap then some snap else none

-- If a command that changes one record in its place announces an event, on a state whose records
-- stand under their own IDs and are listed once in its order lists, then applying that event, with
-- the next revision, to the old snapshot gives exactly the snapshot of the new state at that
-- revision, unless `ValidateSnapshot` refuses it; and the new state is listed in the same way.
pub replica_shows_state :
    (limit : ℕ) (command : Command) (m m' : Machine) (reply : Reply) (event : Event)
    → is_replacing command ≡ true
    → IsListed m.state
    → execute limit command m ≡ (ok (reply, some event), m')
    → let revision = (m.state.revision + 1) % 2 ^ 64 in
      (apply_event (snapshot m.state) (record event { revision = revision })
        ≡ if_valid (snapshot (record m'.state { revision = revision })))
      × IsListed m'.state
unfolding apply_event accept_next snapshot
replica_shows_state limit command m m' reply event c l e =
    let follows = (execute-Follows limit command m c l).follows in
    let (applied, listed) = subst (Follows m) e follows in
    (ground (arith, applied, beq_self ((m.state.revision + 1) % 2 ^ 64)), listed)

-- A state that was restored from a snapshot holds its records under their own IDs, each listed once
-- in the order lists.
pub state_from_snapshot-IsListed :
    (snap : Snapshot) (s : State) → state_from_snapshot snap ≡ some s → IsListed s
unfolding snapshot
state_from_snapshot-IsListed snap s e =
    let ((workspaces, windows, panes, stashed), hierarchy) = state_from_snapshot-Built snap s e in
    (
      Listing-reread workspace_key zero_workspace s.workspaces s.workspace_order snap.workspaces
          workspaces,
      Listing-reread window_key zero_window s.windows s.window_order snap.windows windows,
      Listing-reread pane_key zero_pane s.panes s.pane_order snap.panes panes,
    )
