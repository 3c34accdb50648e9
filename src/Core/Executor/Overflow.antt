-- ===== src/Core/Executor/Overflow.antt =====
-- core.go, `publish`: which frontends get an event, which are dropped, and what becomes of these.
use project_ariadne.Base.{
  ◌+◌, ◌%◌, ◌^◌, ap, Option, some, none, get, delete, contains, nat_eq, if◌then◌else◌, get-delete,
  ℕ, ◌≡◌, refl, Bool, not, List, [], ◌∷◌, ◌++◌, Dict, map, select, length, ltb, arith, ◌∙◌,
}
use project_ariadne.Core.Events.{Event}
use project_ariadne.Model.Errors.{CoreError, event_queue_overflow}
use project_ariadne.Model.Places.{FrontendState}
use project_ariadne.Core.Machine.{Machine}
use project_ariadne.Core.Executor.{Core, publish, drop_frontends, finish_all, announce_event}

abbrev pub has_room : ℕ → ℕ × List Event → Bool
has_room capacity (id, queue) = ltb (length queue) capacity

abbrev pub is_full : ℕ → ℕ × List Event → Bool
is_full capacity entry = not (has_room capacity entry)

abbrev pub with_event : Event → ℕ × List Event → ℕ × List Event
with_event event (id, queue) = (id, queue ++ event ∷ [])

abbrev pub frontend_of : ℕ × List Event → ℕ
frontend_of (id, queue) = id

publish_lem :
    (capacity : ℕ) (event : Event) (queues : Dict ℕ (List Event))
    → ((publish capacity event queues).queues
        ≡ map (with_event event) (select (has_room capacity) queues))
      × ((publish capacity event queues).dropped
          ≡ map frontend_of (select (is_full capacity) queues))
unfolding publish select
publish_lem capacity event [] = (refl, refl)
publish_lem capacity event ((id, queue) ∷ rest) = ground (arith, publish_lem capacity event rest)

-- The frontends whose queue is full.
abbrev pub full_frontends : Core → List ℕ
full_frontends c = map frontend_of (select (is_full c.config.event_queue_capacity) c.queues)

abbrev pub overflowed : ℕ → ℕ × Option CoreError
overflowed id = (id, some event_queue_overflow)

abbrev pub next_revision : Machine → ℕ
next_revision m = (m.state.revision + 1) % 2 ^ 64

-- The core after an event: its revision is one more, every queue with room ends in the event at that
-- revision, and exactly the frontends whose queue was full have lost their queue and their focus and
-- are finished with ErrEventQueueOverflow.
abbrev pub Told : Core → Machine → Event → Core → Type 0
Told c m event c' =
    (c'.machine.state ≡ record m.state { revision = next_revision m })
    × (c'.queues
        ≡ map (with_event (record event { revision = next_revision m }))
            (select (has_room c.config.event_queue_capacity) c.queues))
    × ((id : ℕ)
        → get id c'.machine.frontends
          ≡ (if contains id (full_frontends c) then none else get id m.frontends))
    × (c'.finished ≡ map overflowed (full_frontends c) ++ c.finished)
    × (c'.config ≡ c.config)
    × (c'.next_frontend_id ≡ c.next_frontend_id)

get-drop_frontends :
    (id : ℕ) (ids : List ℕ) (frontends : Dict ℕ FrontendState)
    → get id (drop_frontends ids frontends) ≡ (if contains id ids then none else get id frontends)
unfolding drop_frontends contains
get-drop_frontends id [] frontends = refl
get-drop_frontends id (x ∷ ids) frontends =
    ground (arith, get-drop_frontends id ids (delete x frontends), get-delete x id frontends)

finish_all-map : (ids : List ℕ) → finish_all (some event_queue_overflow) ids ≡ map overflowed ids
unfolding finish_all
finish_all-map [] = refl
finish_all-map (id ∷ ids) = ap (λ rest. overflowed id ∷ rest) (finish_all-map ids)

-- Announcing an event raises the revision, which the event carries, and puts the event at the end of
-- every queue with room. Exactly the frontends whose queue is full are dropped: their queue and focus
-- are gone, and they are finished with ErrEventQueueOverflow.
pub announce_event-Told :
    (c : Core) (m : Machine) (event : Event) → Told c m event (announce_event c m event)
unfolding announce_event
announce_event-Told c m event =
    let sent : Event = record event { revision = next_revision m } in
    let (queues, dropped) = publish_lem c.config.event_queue_capacity sent c.queues in
    let gone = (publish c.config.event_queue_capacity sent c.queues).dropped in
    (
      refl,
      queues,
      λ id.
          get-drop_frontends id gone m.frontends
          ∙ ap (λ ids. if contains id ids then none else get id m.frontends) dropped,
      ap (λ finished. finished ++ c.finished) (finish_all-map gone ∙ ap (map overflowed) dropped),
      refl,
      refl,
    )
