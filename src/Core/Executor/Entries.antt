-- ===== src/Core/Executor/Entries.antt =====
-- core.go, `handle`: invariants of the entries of the frontends' queues.
use project_ariadne.Base.{
  Option, none, some, get, is_some, ◌==◌, nat_eq, true, refl, All-put_entry, All-delete_entry,
  All-get_entry, ℕ, suc, ◌+◌, ◌%◌, ◌^◌, ◌≡◌, ◌≢◌, ◌≤◌, sym, subst, List, [], ◌∷◌, ◌++◌, Dict, All,
  Bool, Bool-cases, inl, inr, ltb, length, arith,
}
use project_ariadne.State.Defs.{max_uint64}
use project_ariadne.Core.Events.{Event}
use project_ariadne.Core.Machine.{Machine}
use project_ariadne.Core.Executor.{
  Core, Published, publish, publish_to, announce_event, handle_subscribe, handle_unsubscribe,
  CoreError, receive, take_first, handle_execute,
}
use project_ariadne.Core.Executor.Handling.{Handled, kept, told, handle_execute-Handled}
use project_ariadne.Core.Executor.Requests.{
  Request, execute_request, snapshot_request, subscribe_request, frontend_state_request,
  unsubscribe_request, receive_request, handle, run, after_receiving,
}
use project_ariadne.Model.Errors.{CoreError}
use project_ariadne.Core.Executor.Queues.{next_revision}

-- Whether a request reads only from the channels that a test names.
abbrev pub may_read : (ℕ → Bool) → Request → Bool
may_read reads (receive_request id) = reads id
may_read reads _ = true

-- `For next revision id queue` says something of an entry, `Of next` of the counter alone.
module _ (Of : ℕ → Type 0) (For : ℕ → ℕ → ℕ → List Event → Type 0) where
  pub record Holds (c : Core) : Type 0 where
    pub revision : c.machine.state.revision ≤ max_uint64
    pub next : c.next_frontend_id ≤ max_uint64
    pub counter : Of c.next_frontend_id
    pub entries :
        All
          (λ (e : ℕ × List Event). For c.next_frontend_id c.machine.state.revision e.0 e.1)
          c.queues

  -- What the operations need: the next frontend ID, an event, a reading frontend.
  pub record Stable (reads : ℕ → Bool) : Type 0 where
    pub announced :
        (next r id : ℕ) (queue : List Event) (event : Event)
        → For next r id queue
        → For next (suc r) id (queue ++ event ∷ [])
    pub counted : (next : ℕ) → next ≢ 0 → next ≤ max_uint64 → Of next → Of ((next + 1) % 2 ^ 64)
    pub kept_by :
        (next r id : ℕ) (queue : List Event)
        → next ≢ 0
        → next ≤ max_uint64
        → For next r id queue
        → For ((next + 1) % 2 ^ 64) r id queue
    pub started :
        (next r : ℕ) → next ≢ 0 → next ≤ max_uint64 → Of next → For ((next + 1) % 2 ^ 64) r next []
    pub read :
        (next r id : ℕ) (event : Event) (queue : List Event)
        → reads id ≡ true
        → For next r id (event ∷ queue)
        → For next r id queue

  publish_to-All :
      (n r capacity id : ℕ) (event : Event) (queue : List Event) (rest : Published)
      → For n (suc r) id (queue ++ event ∷ [])
      → All (λ (e : ℕ × List Event). For n (suc r) e.0 e.1) rest.queues
      → All
          (λ (e : ℕ × List Event). For n (suc r) e.0 e.1)
          (publish_to capacity event id queue rest).queues
  publish_to-All n r capacity id event queue rest p h =
      elim (Bool-cases (ltb (length queue) capacity)) [
        | inl room ↦ rw room (p, h)
        | inr full ↦ rw full h
      ]

  module _ (reads : ℕ → Bool) (stable : Stable reads) where
    publish-All :
        (n r capacity : ℕ) (event : Event) (queues : Dict ℕ (List Event))
        → All (λ (e : ℕ × List Event). For n r e.0 e.1) queues
        → All (λ (e : ℕ × List Event). For n (suc r) e.0 e.1) (publish capacity event queues).queues
    unfolding publish
    publish-All n r capacity event [] h = tt
    publish-All n r capacity event ((id, queue) ∷ rest) (p, h) =
        publish_to-All n r capacity id event queue (publish capacity event rest)
          (stable.announced n r id queue event p) (publish-All n r capacity event rest h)

    counted_up :
        (n r : ℕ)
        → n ≢ 0
        → n ≤ max_uint64
        → (queues : Dict ℕ (List Event)) → All (λ (e : ℕ × List Event). For n r e.0 e.1) queues
        → All (λ (e : ℕ × List Event). For ((n + 1) % 2 ^ 64) r e.0 e.1) queues
    counted_up n r z m [] h = tt
    counted_up n r z m ((id, queue) ∷ rest) (p, h) =
        (stable.kept_by n r id queue z m p, counted_up n r z m rest h)

    announce_event-Holds :
        (c : Core) (m : Machine) (event : Event)
        → Holds c
        → m.state.revision ≡ c.machine.state.revision
        → c.machine.state.revision ≢ max_uint64
        → Holds (announce_event c m event)
    unfolding announce_event
    announce_event-Holds c m event s h below =
        let r = c.machine.state.revision in
        let r' = (m.state.revision + 1) % 2 ^ 64 in
        let n = c.next_frontend_id in
        let e = next_revision r m.state.revision h s.revision below in
        let told_event = record event { revision = r' } in
        record {
          revision = omega (arith, e, s.revision, below);
          next = s.next;
          counter = s.counter;
          entries =
              subst
                (λ k.
                  All (λ (x : ℕ × List Event). For n k x.0 x.1)
                    (publish c.config.event_queue_capacity told_event c.queues).queues)
                (sym e)
                (publish-All n r c.config.event_queue_capacity told_event c.queues s.entries);
        }

    Handled-Holds : (c c' : Core) → Handled c c' → Holds c → Holds c'
    Handled-Holds c c' (kept m h) s = record {
      revision = rw h s.revision;
      next = s.next;
      counter = s.counter;
      entries =
          subst (λ k. All (λ (x : ℕ × List Event). For c.next_frontend_id k x.0 x.1) c.queues)
            (sym h) s.entries;
    }
    Handled-Holds c c' (told m event h below) s = announce_event-Holds c m event s h below

    handle_subscribe-Holds : (c : Core) → Holds c → Holds (handle_subscribe c).1
    unfolding handle_subscribe
    handle_subscribe-Holds c s = elim (Bool-cases (c.next_frontend_id == 0)) [
      | inl p ↦ rw p s
      | inr p ↦
          let n = c.next_frontend_id in
          let r = c.machine.state.revision in
          let nonzero : n ≢ 0 = λ z. ground (arith, p, z) in
          rw p (record {
            revision = s.revision;
            next = omega (arith, s.next);
            counter = stable.counted n nonzero s.next s.counter;
            entries =
                All-put_entry (λ (e : ℕ × List Event). For ((n + 1) % 2 ^ 64) r e.0 e.1) n []
                  c.queues (counted_up n r nonzero s.next c.queues s.entries)
                  (stable.started n r nonzero s.next s.counter);
          })
    ]

    handle_unsubscribe-Holds :
        (id : ℕ) (e : Option CoreError) (c : Core) → Holds c → Holds (handle_unsubscribe id e c).1
    unfolding handle_unsubscribe
    handle_unsubscribe-Holds id e c s = elim (Bool-cases (is_some (get id c.machine.frontends))) [
      | inr p ↦ rw p s
      | inl p ↦ rw p (record {
        revision = s.revision;
        next = s.next;
        counter = s.counter;
        entries = All-delete_entry _ id c.queues s.entries;
      })
    ]

    take_first-Holds :
        (c : Core) (id : ℕ) (queue : Option (List Event))
        → get id c.queues ≡ queue
        → reads id ≡ true
        → Holds c
        → Holds (after_receiving c (take_first c id queue))
    take_first-Holds c id none e h s = s
    take_first-Holds c id (some []) e h s = s
    take_first-Holds c id (some (event ∷ events)) e h s =
        let P = λ (x : ℕ × List Event). For c.next_frontend_id c.machine.state.revision x.0 x.1 in
        record {
          revision = s.revision;
          next = s.next;
          counter = s.counter;
          entries = All-put_entry P id events c.queues s.entries (
              stable.read c.next_frontend_id c.machine.state.revision id event events h
                (All-get_entry P id (event ∷ events) c.queues s.entries e));
        }

    -- Only certain frontends read.
    handle-Holds :
        (request : Request) (c : Core)
        → may_read reads request ≡ true
        → Holds c
        → Holds (handle request c)
    unfolding handle receive
    handle-Holds (execute_request command check) c h s =
        Handled-Holds c (handle_execute command check c).1 (handle_execute-Handled c command check)
          s
    handle-Holds snapshot_request c h s = s
    handle-Holds subscribe_request c h s = handle_subscribe-Holds c s
    handle-Holds (frontend_state_request id) c h s = s
    handle-Holds (unsubscribe_request id e) c h s = handle_unsubscribe-Holds id e c s
    handle-Holds (receive_request id) c h s = take_first-Holds c id (get id c.queues) refl h s

    pub run-Holds :
        (requests : List Request) (c : Core)
        → All (λ (request : Request). may_read reads request ≡ true) requests
        → Holds c
        → Holds (run requests c)
    unfolding run
    run-Holds [] c h s = s
    run-Holds (request ∷ requests) c (p, h) s =
        run-Holds requests (handle request c) h (handle-Holds request c p s)
