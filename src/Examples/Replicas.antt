-- ===== src/Examples/Replicas.antt =====
-- The theorems on a frontend's replica (apply_event.go, model.go) at a session with one pane.
use project_ariadne.Base.{
  ℕ, ◌+◌, ◌%◌, ◌^◌, ◌≡◌, refl, true, false, none, some, [], ◌∷◌, sort, values, get, put, get_all,
  any, all, keys, contains, is_blank, has_nul,
}
use project_ariadne.Layout.Tree.{pane, visit_split_ids}
use project_ariadne.Layout.Validate.{validate_layout}
use project_ariadne.Model.Errors.{ok}
use project_ariadne.Model.Terminal.{
  TerminalInstance, starting, running, valid_terminal, valid_launch,
}
use project_ariadne.Model.Pane.{Pane, valid_pane, valid_pane_presentation, pane_terminal}
use project_ariadne.Model.Places.{Window}
use project_ariadne.State.Defs.{State, default_state, default_workspace}
use project_ariadne.State.Snapshots.{Snapshot, snapshot}
use project_ariadne.State.Hierarchy.{max_key, max_split_id, max_stashed_split_id}
use project_ariadne.State.Restore.{state_from_snapshot, validate_snapshot, clone_snapshot, add_all}
use project_ariadne.State.Restore.Unlisted.{is_unlisted, is_unstashed}
use project_ariadne.State.Restore.Listed.{clone_snapshot-records}
use project_ariadne.Core.Events.{
  Event, terminal_started, terminal_event, terminal_result, window_created, window_created_event,
}
use project_ariadne.Core.Machine.{Machine}
use project_ariadne.Core.Commands.{execute, activate_terminal_command}
use project_ariadne.Core.Terminals.{activate_terminal, pane_by_terminal_id, put_terminal}
use project_ariadne.Core.Replica.{apply_event, upsert}
use project_ariadne.Core.Replica.Follows.{IsListed}
use project_ariadne.Core.Replica.Exact.{replica_shows_state, if_valid, state_from_snapshot-IsListed}
use project_ariadne.Core.Replica.Created.{created_window_refused}

abbrev shell : TerminalInstance
shell = record {
  id = none;
  state = starting;
  launch = record { argv = "sh" ∷ []; cwd = "/" };
  exit = none;
  history_available = false;
}

abbrev shell_pane : TerminalInstance → Pane
shell_pane terminal = record {
  transient = false;
  id = 1;
  window_id = 1;
  kind = pane_terminal;
  title = "shell";
  presentation = "";
  terminal = some terminal;
  tool = none;
}

abbrev main_window : Window
main_window = record { id = 1; workspace_id = 1; name = "main"; layout = some (pane 1) }

-- The snapshot of a session whose only pane shows a terminal.
abbrev session : ℕ → TerminalInstance → Snapshot
session revision terminal = record {
  revision = revision;
  next_workspace_id = 2;
  next_window_id = 2;
  next_pane_id = 2;
  next_split_id = 1;
  workspaces = default_workspace ∷ [];
  windows = main_window ∷ [];
  panes = shell_pane terminal ∷ [];
  stashed_panes = [];
  stashed_windows = [];
  labels = [];
  tool_instances = [];
  attentions = [];
}

abbrev session_state : TerminalInstance → State
session_state terminal = record default_state {
  next_pane_id = 2;
  windows = (1, main_window) ∷ [];
  panes = (1, shell_pane terminal) ∷ [];
  pane_order = 1 ∷ [];
}

restores : state_from_snapshot (session 0 shell) ≡ some (session_state shell)
unfolding state_from_snapshot add_all default_state sort values get any get_all put all keys
    contains max_key max_split_id max_stashed_split_id valid_pane valid_pane_presentation
    valid_terminal valid_launch has_nul is_blank validate_layout visit_split_ids
restores = refl

clones : clone_snapshot (session 0 shell) ≡ some (session 0 shell)
unfolding clone_snapshot snapshot add_all default_state sort values get any get_all put all keys
    contains max_key max_split_id max_stashed_split_id valid_pane valid_pane_presentation
    valid_terminal valid_launch has_nul is_blank validate_layout visit_split_ids
clones = refl

-- What `CloneSnapshot` gives back.
clone_snapshot-records_example :
    ((session 0 shell).workspaces ≡ (session 0 shell).workspaces)
    × ((session 0 shell).windows ≡ (session 0 shell).windows)
    × ((session 0 shell).panes ≡ (session 0 shell).panes)
clone_snapshot-records_example = clone_snapshot-records (session 0 shell) (session 0 shell) clones

abbrev running_shell : TerminalInstance
running_shell = record shell { id = some 7; state = running }

abbrev started : Event
started = record {
  revision = 0;
  kind = terminal_started;
  payload = terminal_event (shell_pane running_shell);
}

abbrev session_machine : TerminalInstance → Machine
session_machine terminal = record { state = session_state terminal; frontends = [] }

starts :
    execute 1024 (activate_terminal_command 1 7) (session_machine shell)
    ≡ (ok (terminal_result (shell_pane running_shell), some started), session_machine running_shell)
unfolding execute activate_terminal default_state get put pane_by_terminal_id put_terminal
starts = refl

session-IsListed : IsListed (session_state shell)
session-IsListed = state_from_snapshot-IsListed (session 0 shell) (session_state shell) restores

replica_shows_state_example :
    let revision = (default_state.revision + 1) % 2 ^ 64 in
    (apply_event (snapshot (session_state shell)) (record started { revision = revision })
      ≡ if_valid (snapshot (record (session_state running_shell) { revision = revision })))
    × IsListed (session_state running_shell)
replica_shows_state_example =
    replica_shows_state 1024 (activate_terminal_command 1 7) (session_machine shell)
      (session_machine running_shell) (terminal_result (shell_pane running_shell)) started refl
      session-IsListed starts

applies :
    apply_event (session 0 shell) (record started { revision = 1 }) ≡ some (session 1 running_shell)
unfolding apply_event validate_snapshot add_all default_state sort values get any get_all put all
    keys contains max_key max_split_id max_stashed_split_id valid_pane valid_pane_presentation
    valid_terminal valid_launch has_nul is_blank validate_layout visit_split_ids upsert
applies = refl

abbrev logs : Window
logs = record { id = 2; workspace_id = 1; name = "logs"; layout = none }

is_new : is_unlisted 2 (session 0 shell).workspaces ≡ true
unfolding any contains
is_new = refl

none_stashed : is_unstashed 2 (session 0 shell).stashed_windows ≡ true
unfolding any
none_stashed = refl

created_window_refused_example :
    apply_event
      (session 0 shell)
      (record { revision = 1; kind = window_created; payload = window_created_event logs })
    ≡ none
created_window_refused_example =
    created_window_refused (session 0 shell) 1 window_created logs is_new none_stashed
