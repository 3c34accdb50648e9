-- ===== src/Examples/Files.antt =====
-- The theorems on the store of the state file (statefile/store.go), with the revision as the encoding
-- of a snapshot.
use project_ariadne.Base.{
  List, ◌⊎◌, ℕ, ◌≤◌, ◌≡◌, refl, true, false, Option, some, [], ◌∷◌, length, sort, values, get, put,
  get_all, any, all, keys, contains,
}
use project_ariadne.State.Defs.{default_state}
use project_ariadne.State.Snapshots.{Snapshot, default_snapshot, snapshot}
use project_ariadne.State.Restore.{clone_snapshot, add_all}
use project_ariadne.State.Hierarchy.{max_key, max_split_id, max_stashed_split_id}
use project_ariadne.StateFile.Store.{
  Action, Store, schedule, send_wake, start_close, stop, take_stop, take_wake, fire, finish,
  written, new_store, run_actions, take_action, scheduled, begin_write, end_write, conclude_write,
}
use project_ariadne.StateFile.Store.Saved.{closed_store-IsSaved}
use project_ariadne.StateFile.Store.Due.{IsWritten}
use project_ariadne.StateFile.Store.Settling.{unsaved_change_is_saved, steps_left, CanGoOn}

abbrev encode : Snapshot → Option ℕ
encode snap = some snap.revision

abbrev size : ℕ → ℕ
size n = n

abbrev limit : ℕ
limit = 100

abbrev changed : Snapshot
changed = record default_snapshot { revision = 5 }

abbrev changed_store : Store ℕ
changed_store = record (new_store encode size limit default_snapshot) {
  latest = changed;
  dirty = true;
  generation = 1;
  waking = 1;
}

takes_change :
    run_actions encode size limit
      (schedule changed ∷ [])
      (new_store encode size limit default_snapshot)
    ≡ some changed_store
unfolding run_actions take_action scheduled new_store clone_snapshot snapshot default_snapshot
    default_state add_all sort values get any get_all put all keys contains max_key max_split_id
    max_stashed_split_id
takes_change = refl

is_dirty : changed_store.dirty ≡ true
is_dirty = refl

abbrev saved_store : Store ℕ
saved_store = record changed_store { dirty = false; waking = 0; file = some 5 }

saves_change :
    run_actions encode size limit (send_wake ∷ take_wake ∷ fire ∷ finish written ∷ []) changed_store
    ≡ some saved_store
unfolding run_actions take_action new_store begin_write end_write conclude_write
saves_change = refl

abbrev closed_store : Store ℕ
closed_store = record changed_store {
  closing = true;
  stopped = true;
  done = true;
  dirty = false;
  file = some 5;
}

closes_store :
    run_actions encode size limit
      (start_close ∷ stop ∷ take_stop ∷ finish written ∷ [])
      changed_store
    ≡ some closed_store
unfolding run_actions take_action new_store begin_write end_write conclude_write
closes_store = refl

closed_store-IsSaved_example : closed_store.file ≡ some 5
unfolding new_store
closed_store-IsSaved_example =
    closed_store-IsSaved encode size limit default_snapshot (schedule changed ∷ [])
      (start_close ∷ stop ∷ take_stop ∷ finish written ∷ []) changed_store closed_store takes_change
      is_dirty closes_store refl refl

abbrev settled_store : Store ℕ
settled_store = record changed_store { waking = 0; dirty = false; file = some 5 }

abbrev last_steps : List Action
last_steps = send_wake ∷ take_wake ∷ fire ∷ finish written ∷ []

settles : run_actions encode size limit last_steps changed_store ≡ some settled_store
unfolding run_actions take_action new_store begin_write end_write conclude_write
settles = refl

unsaved_change_is_saved_example :
    (length last_steps ≤ steps_left encode size limit changed_store)
    × (CanGoOn encode size limit settled_store
        ⊎ IsWritten encode size limit changed_store 5 settled_store)
unfolding new_store any
unsaved_change_is_saved_example =
    unsaved_change_is_saved encode size limit default_snapshot (schedule changed ∷ []) last_steps
      changed_store settled_store 5 takes_change is_dirty refl refl refl refl refl
      (refl, (refl, (refl, (refl, tt)))) settles
