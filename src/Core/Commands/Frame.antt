-- ===== src/Core/Commands/Frame.antt =====
-- What every command leaves alone: the revision, the frontends that there are, and, on an error,
-- all but two counters.
mod Content
mod Places
pub mod Execution
use project_ariadne.Base.{ℕ, ◌≡◌, ◌≤◌, refl, arith}
use project_ariadne.Model.Errors.{CoreError, Result, ok, err}
use project_ariadne.State.Defs.{State}
use project_ariadne.Core.Machine.{Machine, Exec, Outcome, continue, ◌>>=◌}

-- The machine up to the counters that an allocation has moved before a later check failed.
abbrev pub OnlyCounters : Machine → Machine → Type 0
OnlyCounters m m' =
    (m'.frontends ≡ m.frontends)
    × (m'.state ≡ record m.state {
      next_pane_id = m'.state.next_pane_id;
      next_split_id = m'.state.next_split_id;
    })

pub record IsFramed (m : Machine) (r : Result Outcome × Machine) : Type 0 where
  pub revision : r.1.state.revision ≡ m.state.revision
  pub workspace_ids : m.state.next_workspace_id ≤ r.1.state.next_workspace_id
  pub window_ids : m.state.next_window_id ≤ r.1.state.next_window_id
  pub pane_ids : m.state.next_pane_id ≤ r.1.state.next_pane_id
  pub split_ids : m.state.next_split_id ≤ r.1.state.next_split_id
  pub error : (e : CoreError) → r.0 ≡ err e → OnlyCounters m r.1

abbrev pub Framed : Exec Outcome → Type 0
Framed action = (m : Machine) → IsFramed m (action m)

-- An action that only reads, and then fails or returns.
abbrev pub Reads : {A : Type 0} → Exec A → Type 0
Reads action = (m : Machine) → (action m).1 ≡ m

Framed-after_reading :
    {A : Type 0} (m : Machine) (f : A → Exec Outcome) (r : Result A × Machine)
    → r.1 ≡ m
    → ((a : A) → Framed (f a))
    → IsFramed m (continue r f)
Framed-after_reading m f (ok a, m') e k = rw (← e) (k a m')
Framed-after_reading m f (err x, m') e k = ground arith

pub Framed-bind :
    {A : Type 0} (action : Exec A) (f : A → Exec Outcome)
    → Reads action
    → ((a : A) → Framed (f a))
    → Framed (action >>= f)
Framed-bind action f reads k m = Framed-after_reading m f (action m) (reads m) k

-- The counters of a state, and its revision.
pub record SameCounters (s s' : State) : Type 0 where
  pub revision : s'.revision ≡ s.revision
  pub workspace_ids : s'.next_workspace_id ≡ s.next_workspace_id
  pub window_ids : s'.next_window_id ≡ s.next_window_id
  pub pane_ids : s'.next_pane_id ≡ s.next_pane_id
  pub split_ids : s'.next_split_id ≡ s.next_split_id
