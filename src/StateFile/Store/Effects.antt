-- ===== src/StateFile/Store/Effects.antt =====
-- store.go: what one action can do to the store.
use project_ariadne.Base.{
  ℕ, ◌+◌, ◌-◌, ◌%◌, ◌^◌, ◌≡◌, refl, subst, Bool, true, false, ◌&&◌, ◌||◌, Option, none, some, ◌==◌,
  nat_eq, ltb, arith, Bool-cases, Option-cases, inl, inr,
}
use project_ariadne.State.Snapshots.{Snapshot}
use project_ariadne.State.Restore.{clone_snapshot}
use project_ariadne.StateFile.Store.{
  Store, StoreError, Purpose, Write, WriteOutcome, Action, for_close, for_flush, for_timer, written,
  failed_before, failed_after, schedule, send_wake, start_close, stop, take_stop, take_wake,
  take_flush, fire, finish, scheduled, conclude_write, begin_write, failed, end_write, worker_ready,
  take_action, not_writing, encode_error, too_large, write_error,
}

module _ {Data : Type 0} (encode : Snapshot → Option Data) (size : Data → ℕ) (max_bytes : ℕ) where
  -- The worker writes for `Close` only after the stop.
  abbrev pub IsAllowed : Purpose → Store Data → Type 0
  IsAllowed for_close s = s.stopped ≡ true
  IsAllowed for_flush s = Unit
  IsAllowed for_timer s = Unit

  abbrev pub concluded : Purpose → Option StoreError → Store Data → Store Data
  concluded purpose e s = conclude_write encode size max_bytes purpose e s

  pub data Effect (s : Store Data) : Store Data → Type 0 where
    refuses : Effect s s
    accepts :
        (cloned : Snapshot)
        → s.closing ≡ false
        → Effect s (record s {
          latest = cloned;
          dirty = true;
          generation = (s.generation + 1) % 2 ^ 64;
          waking = s.waking + 1;
        })
    wakes : Effect s (record s { waking = s.waking - 1; wake = true })
    closes : Effect s (record s { closing = true })
    stops : s.closing ≡ true → Effect s (record s { stopped = true })
    arms : Effect s (record s { wake = false; timer = true })
    begins :
        (purpose : Purpose)
        → s.writing ≡ none
        → s.done ≡ false
        → s.dirty ≡ true
        → IsAllowed purpose s
        → Effect s (record s {
          timer = false;
          dirty = false;
          writing =
              some (record { copied = s.latest; generation = s.generation; purpose = purpose });
        })
    skips :
        (purpose : Purpose)
        → s.writing ≡ none
        → s.done ≡ false
        → s.dirty ≡ false
        → IsAllowed purpose s
        → Effect s (concluded purpose none (record s { timer = false }))
    saves :
        (w : Write) (content : Data)
        → s.writing ≡ some w
        → encode w.copied ≡ some content
        → Effect s (concluded w.purpose none (record s { file = some content }))
    fails :
        (w : Write) (e : StoreError) (file : Option Data)
        → s.writing ≡ some w
        → Effect s (
            concluded w.purpose
              (some e)
              (record s { file = file; dirty = s.dirty || s.generation == w.generation }))

  scheduled-Effect :
      (snapshot : Snapshot) (s : Store Data)
      → Effect s (scheduled encode size max_bytes snapshot s).1
  unfolding scheduled
  scheduled-Effect snapshot s = elim (Bool-cases s.closing) [
    | inl shut ↦ subst (Effect s) (ground (arith, shut)) refuses
    | inr unshut ↦ elim (Option-cases (clone_snapshot snapshot)) [
      | inl invalid ↦ subst (Effect s) (ground (arith, unshut, invalid)) refuses
      | inr (cloned, valid) ↦
          subst (Effect s) (ground (arith, unshut, valid)) (accepts cloned unshut)
    ]
  ]

  begin_write-Effect :
      (purpose : Purpose) (s : Store Data)
      → s.writing ≡ none
      → s.done ≡ false
      → IsAllowed purpose s
      → Effect s (begin_write encode size max_bytes purpose (record s { timer = false }))
  unfolding begin_write
  begin_write-Effect purpose s w d a = elim (Bool-cases s.dirty) [
    | inl dirty ↦ subst (Effect s) (ground (arith, dirty)) (begins purpose w d dirty a)
    | inr clean ↦ subst (Effect s) (ground (arith, clean)) (skips purpose w d clean a)
  ]

  end_write-Effect :
      (w : Write) (outcome : WriteOutcome) (s : Store Data)
      → s.writing ≡ some w
      → Effect s (end_write encode size max_bytes w outcome s)
  unfolding end_write
  end_write-Effect w outcome s e = elim (Option-cases (encode w.copied)) [
    | inl broken ↦ subst (Effect s) (ground (arith, broken)) (fails w encode_error s.file e)
    | inr (content, encoded) ↦ elim (Bool-cases (ltb max_bytes (size content))) [
      | inl large ↦ subst (Effect s) (ground (arith, encoded, large)) (fails w too_large s.file e)
      | inr fits ↦ subst (Effect s) (ground (arith, encoded, fits)) (ended content encoded outcome)
    ]
  ]
    where
      ended :
          (content : Data)
          → encode w.copied ≡ some content
          → (outcome : WriteOutcome)
          → Effect s (elim outcome [
            | written ↦ concluded w.purpose none (record s { file = some content })
            | failed_before ↦ failed encode size max_bytes w write_error s
            | failed_after ↦
                failed encode size max_bytes w write_error (record s { file = some content })
          ])
      ended content encoded written = saves w content e encoded
      ended content encoded failed_before = fails w write_error s.file e
      ended content encoded failed_after = fails w write_error (some content) e

  ready-idle :
      (s : Store Data) (b : Bool)
      → (worker_ready encode size max_bytes s && b) ≡ true
      → (s.writing ≡ none) × (s.done ≡ false) × (b ≡ true)
  ready-idle s b h = (idle s.writing (ground (arith, h)), ground (arith, h), ground (arith, h))
    where
      idle : (w : Option Write) → not_writing w ≡ true → w ≡ none
      idle none h = refl
      idle (some w) h = ground arith

  -- Whatever an action does is one of these.
  pub take_action-Effect :
      (a : Action) (s t : Store Data) → take_action encode size max_bytes a s ≡ some t → Effect s t
  unfolding take_action
  take_action-Effect (schedule snapshot) s t e =
      subst (Effect s) (ground (arith, e)) (scheduled-Effect snapshot s)
  take_action-Effect send_wake s t e = subst (Effect s) (ground (arith, e)) wakes
  take_action-Effect start_close s t e = subst (Effect s) (ground (arith, e)) closes
  take_action-Effect stop s t e = subst (Effect s) (ground (arith, e)) (stops (ground (arith, e)))
  take_action-Effect take_stop s t e =
      let (idle, unshut, stopped) = ready-idle s s.stopped (ground (arith, e)) in
      subst (Effect s) (ground (arith, e)) (begin_write-Effect for_close s idle unshut stopped)
  take_action-Effect take_wake s t e = subst (Effect s) (ground (arith, e)) arms
  take_action-Effect take_flush s t e =
      let (idle, unshut, _) = ready-idle s true (ground (arith, e)) in
      subst (Effect s) (ground (arith, e)) (begin_write-Effect for_flush s idle unshut tt)
  take_action-Effect fire s t e =
      let (idle, unshut, due) = ready-idle s s.timer (ground (arith, e)) in
      subst (Effect s) (ground (arith, e)) (begin_write-Effect for_timer s idle unshut tt)
  take_action-Effect (finish outcome) s t e = elim (Option-cases s.writing) [
    | inl idle ↦ ground (arith, idle, e)
    | inr (w, writes) ↦
        subst (Effect s) (ground (arith, writes, e)) (end_write-Effect w outcome s writes)
  ]
