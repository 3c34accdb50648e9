-- ===== src/StateFile/Store.antt =====
-- internal/statefile/store.go: the store that gathers changes and writes them behind a debounce timer.
-- Its goroutines are actions on one state, each as much as runs under one lock or between two channel
-- operations; any interleaving is a list of actions. `Encode` and the size of what it gives are
-- parameters, and so is what the file system does with a write.
pub mod Effects
pub mod Saved
pub mod Due
pub mod Settling
use project_ariadne.Base.{
  ℕ, ◌+◌, ◌%◌, ◌^◌, Bool, true, false, not, ◌&&◌, Option, none, some, List, [], ◌∷◌, ◌++◌, ◌==◌,
  nat_eq, if◌then◌else◌, ltb, ◌>>=?◌, ◌||◌, ◌-◌,
}
use project_ariadne.State.Snapshots.{Snapshot}
use project_ariadne.State.Restore.{clone_snapshot}

pub data StoreError : Type 0 where
  closed invalid_data encode_error too_large write_error : StoreError

-- Which case of the worker's `select` writes.
pub data Purpose : Type 0 where
  for_close for_flush for_timer : Purpose

-- `writeAtomic`: the file is replaced or not, and an error may come after the replacement, from the
-- sync of the directory.
pub data WriteOutcome : Type 0 where
  written failed_before failed_after : WriteOutcome

-- The snapshot and the generation that `writeLatest` copied, and why it writes.
pub record Write : Type 0 where
  pub copied : Snapshot
  pub generation : ℕ
  pub purpose : Purpose

-- `waking` counts the calls of `Schedule` between the unlock and the send on `wake`. `answers` are
-- those to `Flush`, in order; `close_error` is there once the worker is done. `file` holds the last
-- encoded snapshot that replaced the file.
pub record Store (Data : Type 0) : Type 0 where
  pub closing : Bool
  pub stopped : Bool
  pub done : Bool
  pub dirty : Bool
  pub generation : ℕ
  pub latest : Snapshot
  pub waking : ℕ
  pub wake : Bool
  pub timer : Bool
  pub writing : Option Write
  pub answers : List (Option StoreError)
  pub reported : Option StoreError
  pub close_error : Option StoreError
  pub file : Option Data

-- `schedule` stands for the locked parts of `Schedule`: `closing` is never reset, so a call that
-- passes its first check and not its second is one that runs later.
pub data Action : Type 0 where
  schedule : Snapshot → Action
  send_wake : Action
  start_close : Action
  stop : Action
  take_stop take_wake take_flush fire : Action
  finish : WriteOutcome → Action

abbrev pub not_writing : Option Write → Bool
not_writing none = true
not_writing (some w) = false

module _ {Data : Type 0} (encode : Snapshot → Option Data) (size : Data → ℕ) (max_bytes : ℕ) where
  unfoldable pub new_store : Snapshot → Store Data
  new_store zero_snapshot = record {
    closing = false;
    stopped = false;
    done = false;
    dirty = false;
    generation = 0;
    latest = zero_snapshot;
    waking = 0;
    wake = false;
    timer = false;
    writing = none;
    answers = [];
    reported = none;
    close_error = none;
    file = none;
  }

  unfoldable pub scheduled : Snapshot → Store Data → Option StoreError × Store Data
  scheduled snapshot s = if s.closing then (some closed, s) else elim (clone_snapshot snapshot) [
    | none ↦ (some invalid_data, s)
    | some cloned ↦ (
      none,
      record s {
        latest = cloned;
        dirty = true;
        generation = (s.generation + 1) % 2 ^ 64;
        waking = s.waking + 1;
      },
    )
  ]

  -- `Store.report`: a full channel drops the error.
  abbrev pub report : Option StoreError → Option StoreError → Option StoreError
  report none reported = reported
  report (some e) (some first) = some first
  report (some e) none = some e

  -- What a case of the worker's loop does with the result of `writeLatest`.
  unfoldable pub conclude_write : Purpose → Option StoreError → Store Data → Store Data
  conclude_write for_close e s = record s { close_error = e; done = true; writing = none }
  conclude_write for_flush e s = record s { answers = s.answers ++ e ∷ []; writing = none }
  conclude_write for_timer e s = record s { reported = report e s.reported; writing = none }

  -- `writeLatest` up to its unlock.
  unfoldable pub begin_write : Purpose → Store Data → Store Data
  unfolding conclude_write
  begin_write purpose s =
      if s.dirty
      then record s {
        dirty = false;
        writing = some (record { copied = s.latest; generation = s.generation; purpose = purpose });
      }
      else conclude_write purpose none s

  -- The end of `writeLatest` after an error: the state is dirty again, unless it was scheduled anew.
  abbrev pub failed : Write → StoreError → Store Data → Store Data
  failed w e s =
      conclude_write w.purpose (some e)
        (record s { dirty = s.dirty || s.generation == w.generation })

  unfoldable pub end_write : Write → WriteOutcome → Store Data → Store Data
  unfolding conclude_write
  end_write w outcome s = elim (encode w.copied) [
    | none ↦ failed w encode_error s
    | some data' ↦ if ltb max_bytes (size data') then failed w too_large s else elim outcome [
      | written ↦ conclude_write w.purpose none (record s { file = some data' })
      | failed_before ↦ failed w write_error s
      | failed_after ↦ failed w write_error (record s { file = some data' })
    ]
  ]

  -- The worker takes a case of its `select`.
  abbrev pub worker_ready : Store Data → Bool
  worker_ready s = not s.done && not_writing s.writing

  -- One action; `none` where it cannot happen.
  unfoldable pub take_action : Action → Store Data → Option (Store Data)
  unfolding scheduled begin_write end_write
  take_action (schedule snapshot) s = some (scheduled snapshot s).1
  take_action send_wake s =
      if s.waking == 0 then none else some (record s { waking = s.waking - 1; wake = true })
  take_action start_close s = if s.closing then none else some (record s { closing = true })
  take_action stop s =
      if s.closing && not s.stopped then some (record s { stopped = true }) else none
  take_action take_stop s =
      if worker_ready s && s.stopped
      then some (begin_write for_close (record s { timer = false }))
      else none
  take_action take_wake s =
      if worker_ready s && s.wake then some (record s { wake = false; timer = true }) else none
  take_action take_flush s =
      if worker_ready s then some (begin_write for_flush (record s { timer = false })) else none
  take_action fire s =
      if worker_ready s && s.timer
      then some (begin_write for_timer (record s { timer = false }))
      else none
  take_action (finish outcome) s = elim s.writing [
    | none ↦ none
    | some w ↦ some (end_write w outcome s)
  ]

  -- A sequence of actions, each of which can happen.
  unfoldable pub run_actions : List Action → Store Data → Option (Store Data)
  unfolding take_action
  run_actions [] s = some s
  run_actions (a ∷ as') s = take_action a s >>=? run_actions as'
