-- ===== src/Core/Executor.antt =====
-- core.go: the executor goroutine. It handles one request at a time, so its behaviour is a function
-- of the requests in the order in which it accepts them.
pub mod Atomic
pub mod Handling
pub mod Requests
pub mod Queues
pub mod Entries
pub mod Overflow
pub mod Answers
pub mod Subscriptions
use project_ariadne.Base.{
  ℕ, ◌+◌, ◌%◌, ◌^◌, Bool, true, ◌&&◌, Option, none, some, List, [], ◌∷◌, ◌++◌, ◌==◌, nat_eq, Dict,
  get, put, delete, if◌then◌else◌, length, ltb, is_some,
}
use project_ariadne.Model.Errors.{
  CoreError, Result, ok, err, invalid_state, invalid_config, not_found, event_queue_overflow,
}
use project_ariadne.Model.Places.{FrontendState}
use project_ariadne.State.Defs.{State, max_uint64}
use project_ariadne.State.Snapshots.{Snapshot, snapshot}
use project_ariadne.State.Restore.{state_from_snapshot, clone_state}
use project_ariadne.Core.Events.{Event, Reply}
use project_ariadne.Core.Machine.{Machine, Outcome, initial_frontend_state}
use project_ariadne.Core.Commands.{Command, execute, changes_persistent_state}

-- The validator is the application's: it returns an error or none.
pub record Config : Type 0 where
  pub event_queue_capacity : ℕ
  pub max_attention_entries : ℕ
  pub snapshot_validator : Option (Snapshot → Option CoreError)

abbrev pub default_config : Config
default_config = record {
  event_queue_capacity = 256;
  max_attention_entries = 1024;
  snapshot_validator = none;
}

-- The frontends: `machine.frontends` holds their focus, `queues` the events that each has not yet
-- received, under the same keys. `finished` records the subscriptions that the executor ended, with
-- the error that `Subscription.Err` reports.
pub record Core : Type 0 where
  pub config : Config
  pub machine : Machine
  pub queues : Dict ℕ (List Event)
  pub next_frontend_id : ℕ
  pub finished : List (ℕ × Option CoreError)

-- `newCore`: an entry limit of 0 means the default. Both numbers are `int`s, and a negative one is
-- refused like an invalid one.
abbrev limit_or_default : ℕ → ℕ
limit_or_default limit = if limit == 0 then 1024 else limit

unfoldable pub new_core : Config → State → Result Core
new_core config s =
    if config.event_queue_capacity == 0
    then err invalid_config
    else ok (record {
      config = record config {
        max_attention_entries = limit_or_default config.max_attention_entries;
      };
      machine = record { state = s; frontends = [] };
      queues = [];
      next_frontend_id = 1;
      finished = [];
    })

-- `NewFromSnapshot`.
unfoldable pub new_from_snapshot : Config → Snapshot → Result Core
unfolding new_core
new_from_snapshot config snap = elim (state_from_snapshot snap) [
  | none ↦ err invalid_state
  | some s ↦ new_core config s
]

-- `publish`: a queue with room takes the event, and a frontend whose queue is full is dropped.
pub record Published : Type 0 where
  pub queues : Dict ℕ (List Event)
  pub dropped : List ℕ

abbrev pub publish_to : ℕ → Event → ℕ → List Event → Published → Published
publish_to capacity event id queue rest =
    if ltb (length queue) capacity
    then record rest { queues = (id, queue ++ event ∷ []) ∷ rest.queues }
    else record rest { dropped = id ∷ rest.dropped }

unfoldable pub publish : ℕ → Event → Dict ℕ (List Event) → Published
publish capacity event [] = record { queues = []; dropped = [] }
publish capacity event ((id, queue) ∷ rest) =
    publish_to capacity event id queue (publish capacity event rest)

unfoldable pub drop_frontends : List ℕ → Dict ℕ FrontendState → Dict ℕ FrontendState
drop_frontends [] frontends = frontends
drop_frontends (id ∷ ids) frontends = drop_frontends ids (delete id frontends)

unfoldable pub finish_all : Option CoreError → List ℕ → List (ℕ × Option CoreError)
finish_all e [] = []
finish_all e (id ∷ ids) = (id, e) ∷ finish_all e ids

-- The revision goes up by one, and the event carries it.
abbrev pub published : Core → Machine → Published → Core
published c m p = record c {
  machine = record m { frontends = drop_frontends p.dropped m.frontends };
  queues = p.queues;
  finished = finish_all (some event_queue_overflow) p.dropped ++ c.finished;
}

unfoldable pub announce_event : Core → Machine → Event → Core
unfolding publish drop_frontends finish_all
announce_event c m event =
    let revision = (m.state.revision + 1) % 2 ^ 64 in
    published c (record m { state = record m.state { revision = revision } })
      (publish c.config.event_queue_capacity (record event { revision = revision }) c.queues)

-- A command that was executed on `m`.
abbrev pub settle : Core → Machine → Option Event → Core
settle c m none = record c { machine = m }
settle c m (some event) = announce_event c m event

-- Without a validator what a failed command wrote stays.
abbrev pub conclude : Core → Result Outcome × Machine → Result Reply × Core
conclude c (err e, m) = (err e, record c { machine = m })
conclude c (ok (reply, event), m) = (ok reply, settle c m event)

-- With one, an error of the command or of the validator rolls back to the core as it was.
abbrev pub verdict : (Snapshot → Option CoreError) → State → Option Event → Option CoreError
verdict validator s none = none
verdict validator s (some event) = validator (snapshot s)

abbrev pub accept_or_roll_back :
    Core → Reply → Machine → Option Event → Option CoreError → Result Reply × Core
accept_or_roll_back c reply m event (some e) = (err e, c)
accept_or_roll_back c reply m event none = (ok reply, settle c m event)

abbrev pub conclude_validated :
    (Snapshot → Option CoreError) → Core → Result Outcome × Machine → Result Reply × Core
conclude_validated validator c (err e, m) = (err e, c)
conclude_validated validator c (ok (reply, event), m) =
    accept_or_roll_back c reply m event (verdict validator m.state event)

abbrev pub run_on : Core → Command → State → Result Outcome × Machine
run_on c command s = execute c.config.max_attention_entries command (record c.machine { state = s })

-- A validated command runs on a copy of the state.
abbrev pub run_validated :
    (Snapshot → Option CoreError) → Core → Command → Option State → Result Reply × Core
run_validated validator c command none = (err invalid_state, c)
run_validated validator c command (some copy) =
    conclude_validated validator c (run_on c command copy)

abbrev pub run_command :
    Core → Command → Bool → Option (Snapshot → Option CoreError) → Result Reply × Core
run_command c command true (some validator) =
    run_validated validator c command (clone_state c.machine.state)
run_command c command _ _ = conclude c (run_on c command c.machine.state)

abbrev pub checked_by : Option (Snapshot → Option CoreError) → State → Option CoreError
checked_by none s = none
checked_by (some check) s = check (snapshot s)

abbrev pub unless_refused : Option CoreError → Core → Command → Result Reply × Core
unless_refused (some e) c command = (err e, c)
unless_refused none c command =
    if changes_persistent_state command && c.machine.state.revision == max_uint64
    then (err invalid_state, c)
    else run_command c command (changes_persistent_state command) c.config.snapshot_validator

-- `handle` at `requestExecute`.
unfoldable pub handle_execute :
    Command → Option (Snapshot → Option CoreError) → Core → Result Reply × Core
unfolding announce_event
handle_execute command check c = unless_refused (checked_by check c.machine.state) c command

-- `requestSnapshot`.
unfoldable pub handle_snapshot : Core → Snapshot
handle_snapshot c = snapshot c.machine.state

-- `requestSubscribe`: the counter wraps to 0, and is refused from then on.
unfoldable pub handle_subscribe : Core → Result (Snapshot × ℕ) × Core
handle_subscribe c =
    let id = c.next_frontend_id in
    if id == 0 then (err invalid_state, c) else (
      ok (snapshot c.machine.state, id),
      record c {
        machine = record c.machine {
          frontends = put id (initial_frontend_state c.machine.state id) c.machine.frontends;
        };
        queues = put id [] c.queues;
        next_frontend_id = (id + 1) % 2 ^ 64;
      },
    )

-- `requestFrontendState`.
abbrev frontend_or_error : Option FrontendState → Result FrontendState
frontend_or_error none = err not_found
frontend_or_error (some f) = ok f

unfoldable pub handle_frontend_state : ℕ → Core → Result FrontendState
handle_frontend_state id c = frontend_or_error (get id c.machine.frontends)

-- `requestUnsubscribe`.
unfoldable pub handle_unsubscribe : ℕ → Option CoreError → Core → Result (Unit {0}) × Core
handle_unsubscribe id close_error c =
    if is_some (get id c.machine.frontends)
    then (
      ok tt,
      record c {
        machine = record c.machine { frontends = delete id c.machine.frontends };
        queues = delete id c.queues;
        finished = (id, close_error) ∷ c.finished;
      },
    )
    else (err not_found, c)

-- The frontend takes the oldest event out of its channel.
abbrev pub take_first : Core → ℕ → Option (List Event) → Option (Event × Core)
take_first c id none = none
take_first c id (some []) = none
take_first c id (some (event ∷ events)) = some (event, record c { queues = put id events c.queues })

unfoldable pub receive : ℕ → Core → Option (Event × Core)
receive id c = take_first c id (get id c.queues)
