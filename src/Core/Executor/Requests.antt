-- ===== src/Core/Executor/Requests.antt =====
-- core.go, `run`: the executor takes one request after the other. Reading an event from a
-- subscription's channel is a step of its own.
use project_ariadne.Base.{ℕ, Option, none, some, List, [], ◌∷◌}
use project_ariadne.Model.Errors.{CoreError}
use project_ariadne.State.Snapshots.{Snapshot}
use project_ariadne.Core.Events.{Event}
use project_ariadne.Core.Commands.{Command}
use project_ariadne.Core.Executor.{
  Core, handle_execute, handle_subscribe, handle_unsubscribe, receive,
}

pub data Request : Type 0 where
  execute_request : Command → Option (Snapshot → Option CoreError) → Request
  snapshot_request : Request
  subscribe_request : Request
  frontend_state_request : ℕ → Request
  unsubscribe_request : ℕ → Option CoreError → Request
  receive_request : ℕ → Request

abbrev pub after_receiving : Core → Option (Event × Core) → Core
after_receiving c none = c
after_receiving c (some (event, c')) = c'

-- The core after a request; the reply is left out.
unfoldable pub handle : Request → Core → Core
unfolding handle_execute
handle (execute_request command check) c = (handle_execute command check c).1
handle snapshot_request c = c
handle subscribe_request c = (handle_subscribe c).1
handle (frontend_state_request id) c = c
handle (unsubscribe_request id e) c = (handle_unsubscribe id e c).1
handle (receive_request id) c = after_receiving c (receive id c)

unfoldable pub run : List Request → Core → Core
unfolding handle
run [] c = c
run (r ∷ rs) c = run rs (handle r c)
