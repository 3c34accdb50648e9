-- ===== src/StateFile/Store/Settling.antt =====
-- store.go: the steps that remain without new changes, in any order, save the latest snapshot.
use project_ariadne.Base.{
  ℕ, ◌+◌, ◌*◌, ◌-◌, ◌≤◌, ◌≡◌, refl, subst, Bool, true, false, Option, none, some, List, [], ◌∷◌,
  ◌==◌, nat_eq, length, if◌then◌else◌, arith, is_some, ltb, All, Bool-cases, Option-cases, inl, inr,
  ◌⊎◌, ap, sym, ◌∙◌,
}
use project_ariadne.State.Snapshots.{Snapshot}
use project_ariadne.StateFile.Store.{
  Store, Write, Action, for_timer, new_store, take_action, run_actions, send_wake, take_wake, fire,
  finish, written, begin_write, end_write, conclude_write,
}
use project_ariadne.StateFile.Store.Due.{is_due, gave_error, IsDue, IsWritten, reached-IsDue}

-- The steps of the worker's timer, of pending calls of `Schedule`, and of writes that succeed.
abbrev pub is_settling : Action → Bool
is_settling send_wake = true
is_settling take_wake = true
is_settling fire = true
is_settling (finish written) = true
is_settling _ = false

module _ {Data : Type 0} (encode : Snapshot → Option Data) (size : Data → ℕ) (max_bytes : ℕ) where
  -- A wake-up still to be sent, one that was sent, a timer that runs and a write under way stand for
  -- four, three, two and one steps.
  abbrev pub steps_left : Store Data → ℕ
  steps_left s =
      4 * s.waking
      + (if s.wake then 3 else 0)
      + (if s.timer then 2 else 0)
      + (if is_some s.writing then 1 else 0)

  abbrev InFlight : Snapshot → Data → Store Data → Option Write → Type 0
  InFlight latest content t none = t.dirty ≡ false → t.file ≡ some content
  InFlight latest content t (some w) =
      (w.copied ≡ latest) × (w.purpose ≡ for_timer) × (t.dirty ≡ false)

  -- What holds while the store settles.
  abbrev Settles : Snapshot → Data → Store Data → Type 0
  Settles latest content t =
      (t.latest ≡ latest)
      × (t.done ≡ false)
      × (gave_error encode size max_bytes t ≡ false)
      × IsDue encode size max_bytes t
      × InFlight latest content t t.writing

  abbrev Progress : Snapshot → Data → Store Data → Store Data → Type 0
  Progress latest content t u = Settles latest content u × (steps_left u + 1 ≤ steps_left t)

  module _ (latest : Snapshot) (content : Data) (t u : Store Data) where
    send_wake-Progress :
        Settles latest content t
        → take_action encode size max_bytes send_wake t ≡ some u
        → Progress latest content t u
    unfolding take_action
    send_wake-Progress (same, alive, clear, due, flight) e =
        let waits : (t.waking == 0) ≡ false = ground (arith, e) in
        let sent : Store Data = record t { waking = t.waking - 1; wake = true } in
        let result : sent ≡ u = ground (arith, e, waits) in
        subst (Progress latest content t) result
          ((same, alive, clear, (λ d. ground arith), flight), ground (arith, waits))

    take_wake-Progress :
        Settles latest content t
        → take_action encode size max_bytes take_wake t ≡ some u
        → Progress latest content t u
    unfolding take_action
    take_wake-Progress (same, alive, clear, due, flight) e =
        let woken : t.wake ≡ true = ground (arith, e) in
        let armed : Store Data = record t { wake = false; timer = true } in
        let result : armed ≡ u = ground (arith, e) in
        subst (Progress latest content t) result
          ((same, alive, clear, (λ d. ground arith), flight), ground (arith, woken))

    fire-Progress :
        Settles latest content t
        → take_action encode size max_bytes fire t ≡ some u
        → Progress latest content t u
    unfolding take_action begin_write conclude_write
    fire-Progress (same, alive, clear, due, flight) e =
        let armed : t.timer ≡ true = ground (arith, e) in
        let free : is_some t.writing ≡ false = ground (arith, e) in
        let idle : t.writing ≡ none = ground (arith, free) in
        elim (Bool-cases t.dirty) [
          | inl dirty ↦
              let begun : Store Data = record t {
                timer = false;
                dirty = false;
                writing =
                    some (record {
                      copied = t.latest;
                      generation = t.generation;
                      purpose = for_timer;
                    });
              } in
              let result : begun ≡ u = ground (arith, e, armed, idle, dirty) in
              subst (Progress latest content t) result (
                (same, alive, clear, (λ d. ground (arith, d)), (same, refl, refl)),
                ground (arith, armed, idle),
              )
          | inr clean ↦
              let skipped : Store Data = record t { timer = false; writing = none } in
              let result : skipped ≡ u = ground (arith, e, armed, idle, clean) in
              subst (Progress latest content t) result (
                (
                  same,
                  alive,
                  clear,
                  (λ d. ground (arith, d, clean)),
                  subst (InFlight latest content t) idle flight,
                ),
                ground (arith, armed, idle),
              )
        ]

    finish-Progress :
        encode latest ≡ some content
        → ltb max_bytes (size content) ≡ false
        → Settles latest content t
        → take_action encode size max_bytes (finish written) t ≡ some u
        → Progress latest content t u
    unfolding take_action end_write conclude_write
    finish-Progress encoded fits (same, alive, clear, due, flight) e =
        elim (Option-cases t.writing) [
          | inl idle ↦ ground (arith, e, idle)
          | inr (w, writes) ↦
              let (copy, for_it, clean) = subst (InFlight latest content t) writes flight in
              let encoded_copy : encode w.copied ≡ some content = ap encode copy ∙ encoded in
              let saved : Store Data = record t { file = some content; writing = none } in
              let result : saved ≡ u = ground (arith, e, writes, for_it, encoded_copy, fits) in
              subst (Progress latest content t) result (
                (same, alive, clear, (λ d. ground (arith, d, clean)), (λ _. refl)),
                ground (arith, writes),
              )
        ]

    take_action-Progress :
        (a : Action)
        → encode latest ≡ some content
        → ltb max_bytes (size content) ≡ false
        → is_settling a ≡ true
        → Settles latest content t
        → take_action encode size max_bytes a t ≡ some u
        → Progress latest content t u
    take_action-Progress send_wake encoded fits k h e = send_wake-Progress h e
    take_action-Progress take_wake encoded fits k h e = take_wake-Progress h e
    take_action-Progress fire encoded fits k h e = fire-Progress h e
    take_action-Progress (finish written) encoded fits k h e = finish-Progress encoded fits h e
    take_action-Progress _ encoded fits k h e = ground (arith, k)

  run_actions-Progress :
      (latest : Snapshot) (content : Data)
      → encode latest ≡ some content
      → ltb max_bytes (size content) ≡ false
      → (steps : List Action) (s t : Store Data) → All (λ (a : Action). is_settling a ≡ true) steps
      → Settles latest content s
      → run_actions encode size max_bytes steps s ≡ some t
      → Settles latest content t × (length steps + steps_left t ≤ steps_left s)
  unfolding run_actions
  run_actions-Progress latest content encoded fits [] s t k h e =
      let result : s ≡ t = ground (arith, e) in
      subst (λ u. Settles latest content u × (0 + steps_left u ≤ steps_left s)) result
        (h, omega arith)
  run_actions-Progress latest content encoded fits (a ∷ steps) s t (k, ks) h e =
      elim (Option-cases (take_action encode size max_bytes a s)) [
        | inl stuck ↦ ground (arith, e, stuck)
        | inr (u, next) ↦
            let (settles, less) = take_action-Progress latest content s u a encoded fits k h next in
            let (end, few) =
              run_actions-Progress latest content encoded fits steps u t ks settles
                (ground (arith, e, next)) in
            (end, omega (arith, less, few))
      ]

  -- Another settling step can happen.
  abbrev pub CanGoOn : Store Data → Type 0
  CanGoOn t =
      (a : Action) × (is_settling a ≡ true)
      × (is_some (take_action encode size max_bytes a t) ≡ true)

  Settles-end :
      (latest : Snapshot) (content : Data) (s t : Store Data)
      → s.latest ≡ latest
      → Settles latest content t
      → CanGoOn t ⊎ IsWritten encode size max_bytes s content t
  unfolding take_action
  Settles-end latest content s t start (same, alive, clear, due, flight) =
      elim (Option-cases t.writing) [
        | inr (w, writes) ↦ inl (finish written, refl, ground (arith, writes))
        | inl idle ↦ elim (Bool-cases t.timer) [
          | inl armed ↦ inl (fire, refl, ground (arith, idle, alive, armed))
          | inr unarmed ↦ elim (Bool-cases t.wake) [
            | inl woken ↦ inl (take_wake, refl, ground (arith, idle, alive, woken))
            | inr asleep ↦ elim (Bool-cases (t.waking == 0)) [
              | inr waits ↦ inl (send_wake, refl, ground (arith, waits))
              | inl silent ↦
                  let clean : t.dirty ≡ false =
                    settled t.dirty (λ d. due (ground (arith, d, clear))) unarmed asleep silent in
                  inr (
                    clean,
                    idle,
                    subst (InFlight latest content t) idle flight clean,
                    same ∙ sym start,
                  )
            ]
          ]
        ]
      ]
    where
      settled :
          (dirty : Bool)
          → (dirty ≡ true → is_due encode size max_bytes t ≡ true)
          → t.timer ≡ false
          → t.wake ≡ false
          → (t.waking == 0) ≡ true
          → dirty ≡ false
      settled false d a b c = refl
      settled true d a b c = let due' = d refl in ground (arith, due', a, b, c)

  -- In every state that a new store comes to, with a change not saved, no write under way, the worker
  -- running, no error given before and an encoding of the latest snapshot within the limit: whatever
  -- run of the steps that remain follows, without new changes, flushes or `Close` and with writes that
  -- succeed, it has at most as many steps as were left, and where no further one of them can happen,
  -- the latest snapshot is saved.
  pub unsaved_change_is_saved :
      (initial : Snapshot) (actions steps : List Action) (s t : Store Data) (content : Data)
      → run_actions encode size max_bytes actions (new_store encode size max_bytes initial) ≡ some s
      → s.dirty ≡ true
      → s.writing ≡ none
      → s.done ≡ false
      → gave_error encode size max_bytes s ≡ false
      → encode s.latest ≡ some content
      → ltb max_bytes (size content) ≡ false
      → All (λ (a : Action). is_settling a ≡ true) steps
      → run_actions encode size max_bytes steps s ≡ some t
      → (length steps ≤ steps_left s) × (CanGoOn t ⊎ IsWritten encode size max_bytes s content t)
  unsaved_change_is_saved initial actions steps s t content e dirty idle alive clear encoded fits
        settle run =
      let start : Settles s.latest content s = (
        refl,
        alive,
        clear,
        reached-IsDue encode size max_bytes initial actions s e,
        subst (InFlight s.latest content s) (sym idle) (λ clean. ground (arith, clean, dirty)),
      ) in
      let (end, few) =
        run_actions-Progress s.latest content encoded fits steps s t settle start run in
      (omega (arith, few), Settles-end s.latest content s t refl end)
