-- ===== src/Core/Executor/Queues.antt =====
-- core.go, `publish` and the subscriptions' channels: no frontend misses an event.
use project_ariadne.Base.{
  Bool-cases, inl, inr, is_some, ◌==◌, ◌%◌, ◌^◌, ℕ, suc, ◌+◌, ◌≡◌, ◌≢◌, ◌≤◌, refl, subst, sym, List,
  [], ◌∷◌, ◌++◌, Option, none, some, length, length-append, Dict, values, get, nat_eq, All, All-put,
  All-delete, All-get, ltb, arith, Bool-cases, inl, inr,
}
use project_ariadne.Model.Errors.{CoreError, ok}
use project_ariadne.State.Defs.{State, max_uint64}
use project_ariadne.Core.Events.{Event}
use project_ariadne.Core.Machine.{Machine}
use project_ariadne.Core.Executor.{
  Core, Config, Published, new_core, publish, publish_to, announce_event, handle_execute,
  handle_subscribe, handle_unsubscribe, receive, take_first,
}
use project_ariadne.Core.Executor.Handling.{Handled, kept, told, handle_execute-Handled}
use project_ariadne.Core.Executor.Requests.{
  after_receiving, Request, execute_request, snapshot_request, subscribe_request,
  frontend_state_request, unsubscribe_request, receive_request, handle, run,
}

-- The revisions of a queue's events follow each other without a gap and end at `revision`.
abbrev pub EndsAt : ℕ → List Event → Type 0
EndsAt revision [] = Unit
EndsAt revision (event ∷ events) =
    (event.revision + length events ≡ revision) × EndsAt revision events

abbrev pub IsQueue : ℕ → ℕ → List Event → Type 0
IsQueue capacity revision queue = EndsAt revision queue × (length queue ≤ capacity)

-- Every frontend's queue leads up to the current revision, and no queue is over its capacity.
pub record IsSynced (c : Core) : Type 0 where
  pub revision : c.machine.state.revision ≤ max_uint64
  pub queues :
      All (IsQueue c.config.event_queue_capacity c.machine.state.revision) (values c.queues)

EndsAt-append :
    (r : ℕ) (event : Event) (queue : List Event)
    → EndsAt r queue
    → event.revision ≡ suc r
    → EndsAt (suc r) (queue ++ event ∷ [])
EndsAt-append r event [] h e = (ground (arith, e), tt)
EndsAt-append r event (x ∷ queue) (p, h) e =
    (omega (arith, p, length-append queue (event ∷ [])), EndsAt-append r event queue h e)

publish_to-queues :
    (capacity r id : ℕ) (event : Event) (queue : List Event) (rest : Published)
    → IsQueue capacity r queue
    → All (IsQueue capacity (suc r)) (values rest.queues)
    → event.revision ≡ suc r
    → All (IsQueue capacity (suc r)) (values (publish_to capacity event id queue rest).queues)
unfolding values
publish_to-queues capacity r id event queue rest (ends, room) h e =
    elim (Bool-cases (ltb (length queue) capacity)) [
      | inl p ↦ rw p (
        (EndsAt-append r event queue ends e, ground (arith, p, length-append queue (event ∷ []))),
        h,
      )
      | inr p ↦ rw p h
    ]

publish-queues :
    (capacity r : ℕ) (event : Event) (queues : Dict ℕ (List Event))
    → All (IsQueue capacity r) (values queues)
    → event.revision ≡ suc r
    → All (IsQueue capacity (suc r)) (values (publish capacity event queues).queues)
unfolding publish values
publish-queues capacity r event [] h e = tt
publish-queues capacity r event ((id, queue) ∷ rest) (q, h) e =
    publish_to-queues capacity r id event queue (publish capacity event rest) q
      (publish-queues capacity r event rest h e) e

-- Below the largest revision the counter does not wrap.
pub next_revision :
    (r r' : ℕ) → r' ≡ r → r ≤ max_uint64 → r ≢ max_uint64 → (r' + 1) % 2 ^ 64 ≡ suc r
next_revision r r' e h below = ground (arith, e, h, below)

announce_event-IsSynced :
    (c : Core) (m : Machine) (event : Event)
    → IsSynced c
    → m.state.revision ≡ c.machine.state.revision
    → c.machine.state.revision ≢ max_uint64
    → IsSynced (announce_event c m event)
unfolding announce_event
announce_event-IsSynced c m event s h below =
    let r = c.machine.state.revision in
    let r' = (m.state.revision + 1) % 2 ^ 64 in
    let capacity = c.config.event_queue_capacity in
    let e = next_revision r m.state.revision h s.revision below in
    record {
      revision = omega (arith, e, s.revision, below);
      queues =
          subst
            (λ n.
              All (IsQueue capacity n)
                (values (publish capacity (record event { revision = r' }) c.queues).queues))
            (sym e)
            (publish-queues capacity r (record event { revision = r' }) c.queues s.queues e);
    }

Handled-IsSynced : (c c' : Core) → Handled c c' → IsSynced c → IsSynced c'
Handled-IsSynced c c' (kept m h) s = record {
  revision = rw h s.revision;
  queues =
      subst (λ n. All (IsQueue c.config.event_queue_capacity n) (values c.queues)) (sym h) s.queues;
}
Handled-IsSynced c c' (told m event h below) s = announce_event-IsSynced c m event s h below

pub handle_subscribe-IsSynced : (c : Core) → IsSynced c → IsSynced (handle_subscribe c).1
unfolding handle_subscribe
handle_subscribe-IsSynced c s = elim (Bool-cases (c.next_frontend_id == 0)) [
  | inl p ↦ rw p s
  | inr p ↦ rw p (record {
    revision = s.revision;
    queues =
        All-put (IsQueue c.config.event_queue_capacity c.machine.state.revision) c.next_frontend_id
          [] c.queues s.queues (tt, ground arith);
  })
]

handle_unsubscribe-IsSynced :
    (id : ℕ) (e : Option CoreError) (c : Core) → IsSynced c → IsSynced (handle_unsubscribe id e c).1
unfolding handle_unsubscribe
handle_unsubscribe-IsSynced id e c s = elim (Bool-cases (is_some (get id c.machine.frontends))) [
  | inr p ↦ rw p s
  | inl p ↦ rw p (record {
    revision = s.revision;
    queues =
        All-delete (IsQueue c.config.event_queue_capacity c.machine.state.revision) id c.queues
          s.queues;
  })
]

IsQueue-tail :
    (capacity r : ℕ) (event : Event) (events : List Event)
    → IsQueue capacity r (event ∷ events)
    → IsQueue capacity r events
IsQueue-tail capacity r event events ((p, ends), room) = (ends, ground (arith, room))

take_first-IsSynced :
    (c : Core) (id : ℕ) (queue : Option (List Event))
    → get id c.queues ≡ queue
    → IsSynced c
    → IsSynced (after_receiving c (take_first c id queue))
take_first-IsSynced c id none e s = s
take_first-IsSynced c id (some []) e s = s
take_first-IsSynced c id (some (event ∷ events)) e s =
    let P = IsQueue c.config.event_queue_capacity c.machine.state.revision in
    record {
      revision = s.revision;
      queues = All-put P id events c.queues s.queues (
          IsQueue-tail c.config.event_queue_capacity c.machine.state.revision event events
            (All-get P id (event ∷ events) c.queues s.queues e));
    }

handle-IsSynced : (r : Request) (c : Core) → IsSynced c → IsSynced (handle r c)
unfolding handle receive
handle-IsSynced (execute_request command check) c s =
    Handled-IsSynced c (handle_execute command check c).1 (handle_execute-Handled c command check) s
handle-IsSynced snapshot_request c s = s
handle-IsSynced subscribe_request c s = handle_subscribe-IsSynced c s
handle-IsSynced (frontend_state_request id) c s = s
handle-IsSynced (unsubscribe_request id e) c s = handle_unsubscribe-IsSynced id e c s
handle-IsSynced (receive_request id) c s = take_first-IsSynced c id (get id c.queues) refl s

pub run-IsSynced : (rs : List Request) (c : Core) → IsSynced c → IsSynced (run rs c)
unfolding run
run-IsSynced [] c s = s
run-IsSynced (r ∷ rs) c s = run-IsSynced rs (handle r c) (handle-IsSynced r c s)

pub new_core-empty :
    (config : Config) (s : State) (c : Core)
    → new_core config s ≡ ok c
    → (c.queues ≡ []) × (c.machine.state.revision ≡ s.revision)
unfolding new_core
new_core-empty config s c e = ground arith

All-nothing : (P : List Event → Type 0) (qs : Dict ℕ (List Event)) → qs ≡ [] → All P (values qs)
unfolding values
All-nothing P qs e = rw e tt

pub new_core-IsSynced :
    (config : Config) (s : State) (c : Core)
    → new_core config s ≡ ok c
    → s.revision ≤ max_uint64
    → IsSynced c
new_core-IsSynced config s c e h =
    let (empty, same) = new_core-empty config s c e in
    record { revision = ground (arith, same, h); queues = All-nothing _ c.queues empty }

-- Whatever requests a new core over a state with a 64-bit revision has handled, the revision is
-- still one, and every frontend's queue is within the capacity and holds events whose revisions
-- follow each other without a gap up to the current one.
pub queues_miss_nothing :
    (config : Config) (s : State) (c : Core) (requests : List Request)
    → new_core config s ≡ ok c
    → s.revision ≤ max_uint64
    → IsSynced (run requests c)
queues_miss_nothing config s c requests e h =
    run-IsSynced requests c (new_core-IsSynced config s c e h)
