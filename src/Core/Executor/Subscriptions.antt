-- ===== src/Core/Executor/Subscriptions.antt =====
-- core.go, `Subscribe`: the snapshot and the events that follow it.
use project_ariadne.Model.Errors.{ok}
use project_ariadne.State.Snapshots.{Snapshot, snapshot}
use project_ariadne.Core.Executor.{Core, Config, new_core, handle_subscribe}
use project_ariadne.Core.Executor.Requests.{
  Request, run, execute_request, snapshot_request, subscribe_request, frontend_state_request,
  unsubscribe_request, receive_request,
}
use project_ariadne.Core.Executor.Queues.{
  IsQueue, EndsAt, IsSynced, new_core-empty, new_core-IsSynced, run-IsSynced,
  handle_subscribe-IsSynced,
}
use project_ariadne.Core.Executor.Entries.{run-Holds, may_read, Stable, Holds}
use project_ariadne.Base.{
  refl, All-get, All-get_entry, ap, sym, subst, ℕ, ◌+◌, ◌%◌, ◌^◌, ◌≡◌, ◌≢◌, ◌≤◌, ◌<◌, ◌⊎◌, inl, inr,
  List, [], ◌∷◌, nat_eq, ◌==◌, not, Bool, true, false, Bool-cases, length, length-append, arith,
  Dict, All, get, All-put_entry, some,
}
use project_ariadne.State.Defs.{max_uint64, State}
use project_ariadne.Core.Events.{Event}

-- A frontend ID was handed out before.
abbrev IsOld : ℕ → ℕ → Type 0
IsOld next id = (next ≡ 0) ⊎ (id < next)

abbrev anyone : ℕ → Bool
anyone id = true

abbrev Any : ℕ → Type 0
Any next = Unit {0}

abbrev Numbered : ℕ → ℕ → ℕ → List Event → Type 0
Numbered next r id queue = IsOld next id

counted-IsOld :
    (next id : ℕ) → next ≢ 0 → next ≤ max_uint64 → IsOld next id → IsOld ((next + 1) % 2 ^ 64) id
counted-IsOld next id z m (inl e) = absurd (z e)
counted-IsOld next id z m (inr l) = next_old (Bool-cases (next == max_uint64))
  where
    next_old :
        ((next == max_uint64) ≡ true) ⊎ ((next == max_uint64) ≡ false)
        → IsOld ((next + 1) % 2 ^ 64) id
    next_old (inl p) = inl (ground (arith, p))
    next_old (inr p) = inr (ground (arith, p, m, l))

handed_out : (next : ℕ) → next ≢ 0 → next ≤ max_uint64 → IsOld ((next + 1) % 2 ^ 64) next
handed_out next z m = elim (Bool-cases (next == max_uint64)) [
  | inl p ↦ inl (ground (arith, p))
  | inr p ↦ inr (ground (arith, p, m))
]

Numbered-Stable : Stable Any Numbered anyone
Numbered-Stable = record {
  announced = λ next r id queue event h. h;
  counted = λ next z m h. tt;
  kept_by = λ next r id queue z m h. counted-IsOld next id z m h;
  started = λ next r z m h. handed_out next z m;
  read = λ next r id event queue h p. p;
}

-- All frontends but one.
abbrev pub others : ℕ → ℕ → Bool
others id k = not (k == id)

module _ (base id : ℕ) where
  abbrev Follows : ℕ → ℕ → ℕ → List Event → Type 0
  Follows next r k queue = k ≡ id → base + length queue ≡ r

  abbrev IsOldId : ℕ → Type 0
  IsOldId next = IsOld next id

  Follows-Stable : Stable IsOldId Follows (others id)
  Follows-Stable = record {
    announced = λ next r k queue event h e. omega (arith, h e, length-append queue (event ∷ []));
    counted = λ next z m h. counted-IsOld next id z m h;
    kept_by = λ next r k queue z m h. h;
    started =
        λ next r z m h e. elim h [ inl p ↦ absurd (z p) | inr p ↦ absurd (omega (arith, p, e)) ];
    read = λ next r k event queue h p e. absurd (ground (arith, h, e));
  }

new_core-Numbered :
    (config : Config) (s : State) (c : Core)
    → new_core config s ≡ ok c
    → s.revision ≤ max_uint64
    → Holds Any Numbered c
unfolding new_core
new_core-Numbered config s c e h =
    let (empty, same) = new_core-empty config s c e in
    record {
      revision = ground (arith, same, h);
      next = ground (arith, e);
      counter = tt;
      entries = no_entries c.queues empty;
    }
  where
    no_entries :
        (queues : Dict ℕ (List Event))
        → queues ≡ []
        → All
            (λ (x : ℕ × List Event). Numbered c.next_frontend_id c.machine.state.revision x.0 x.1)
            queues
    no_entries queues e' = rw e' tt

all_permitted : (requests : List Request) → All (λ (r : Request). may_read anyone r ≡ true) requests
all_permitted [] = tt
all_permitted (execute_request command check ∷ rs) = (refl, all_permitted rs)
all_permitted (snapshot_request ∷ rs) = (refl, all_permitted rs)
all_permitted (subscribe_request ∷ rs) = (refl, all_permitted rs)
all_permitted (frontend_state_request id ∷ rs) = (refl, all_permitted rs)
all_permitted (unsubscribe_request id e ∷ rs) = (refl, all_permitted rs)
all_permitted (receive_request id ∷ rs) = (refl, all_permitted rs)

-- The entries of the others do not matter to a new frontend.
none-Follows :
    (base n next r : ℕ) (queues : Dict ℕ (List Event))
    → n ≢ 0
    → All (λ (x : ℕ × List Event). Numbered n r x.0 x.1) queues
    → All (λ (x : ℕ × List Event). Follows base n next r x.0 x.1) queues
none-Follows base n next r [] z h = tt
none-Follows base n next r ((k, queue) ∷ rest) z (p, h) = (
  λ e. elim p [ inl q ↦ absurd (z q) | inr q ↦ absurd (omega (arith, q, e)) ],
  none-Follows base n next r rest z h,
)

begun-Holds :
    (c : Core)
    → (c.next_frontend_id == 0) ≡ false
    → Holds Any Numbered c
    → Holds
        (IsOldId c.machine.state.revision c.next_frontend_id)
        (Follows c.machine.state.revision c.next_frontend_id)
        (handle_subscribe c).1
unfolding handle_subscribe
begun-Holds c p s =
    let n = c.next_frontend_id in
    let r = c.machine.state.revision in
    let n' = (n + 1) % 2 ^ 64 in
    let nonzero : n ≢ 0 = λ z. ground (arith, p, z) in
    rw p (record {
      revision = s.revision;
      next = omega (arith, s.next);
      counter = handed_out n nonzero s.next;
      entries =
          All-put_entry (λ (x : ℕ × List Event). Follows r n n' r x.0 x.1) n [] c.queues
            (none-Follows r n n' r c.queues nonzero s.entries) (λ _. omega arith);
    })

-- What an answer to `Subscribe` tells.
subscribed :
    (c c' : Core) (snap : Snapshot) (id : ℕ)
    → handle_subscribe c ≡ (ok (snap, id), c')
    → ((c.next_frontend_id == 0) ≡ false)
      × (id ≡ c.next_frontend_id)
      × (snap.revision ≡ c.machine.state.revision)
      × (c' ≡ (handle_subscribe c).1)
unfolding handle_subscribe snapshot
subscribed c c' snap id e = elim (Bool-cases (c.next_frontend_id == 0)) [
  | inl p ↦ ground (arith, p, e)
  | inr p ↦ (p, ground (arith, p, e), ground (arith, p, e), ap (λ x. x.1) (sym e))
]

-- `Subscribe` answers with a snapshot and an ID. As long as nobody reads from that frontend's queue,
-- and as long as it has one, the queue holds every event since the snapshot: after any requests that
-- a new core over a state with a 64-bit revision handled before and after, the revisions of the
-- queue's events follow each other without a gap, the first is the snapshot's plus one, and the
-- last is the current one.
pub subscription_misses_nothing :
    (config : Config) (s : State) (c c' : Core) (before later : List Request) (snap : Snapshot)
    (id : ℕ) (queue : List Event)
    → new_core config s ≡ ok c
    → s.revision ≤ max_uint64
    → handle_subscribe (run before c) ≡ (ok (snap, id), c')
    → All (λ (r : Request). may_read (others id) r ≡ true) later
    → get id (run later c').queues ≡ some queue
    → EndsAt (run later c').machine.state.revision queue
      × (snap.revision + length queue ≡ (run later c').machine.state.revision)
subscription_misses_nothing config s c c' before later snap id queue e h answer quiet there =
    let old = run before c in
    let numbered =
      run-Holds Any Numbered anyone Numbered-Stable before c (all_permitted before)
        (new_core-Numbered config s c e h) in
    let (p, same_id, same_revision, same_core) = subscribed old c' snap id answer in
    let begun : Holds (IsOldId snap.revision id) (Follows snap.revision id) c' =
      rw (same_revision, same_id, same_core) (begun-Holds old p numbered) in
    let follows =
      run-Holds (IsOldId snap.revision id) (Follows snap.revision id) (others id)
        (Follows-Stable snap.revision id) later c' quiet begun in
    let synced : IsSynced c' =
      subst IsSynced (sym same_core) (
        handle_subscribe-IsSynced old (run-IsSynced before c (new_core-IsSynced config s c e h))) in
    let end = run later c' in
    let r = end.machine.state.revision in
    let ended = run-IsSynced later c' synced in
    (
      (All-get (IsQueue end.config.event_queue_capacity r) id queue end.queues ended.queues
          there).0,
      All-get_entry
          (λ (x : ℕ × List Event). Follows snap.revision id end.next_frontend_id r x.0 x.1) id queue
          end.queues follows.entries there refl,
    )
