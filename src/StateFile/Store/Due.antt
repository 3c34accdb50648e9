-- ===== src/StateFile/Store/Due.antt =====
-- store.go: a change that is not saved yet is due, unless a write of it has failed.
use project_ariadne.Base.{
  ℕ, ◌≡◌, refl, Bool, true, false, not, ◌&&◌, ◌||◌, Option, none, some, List, [], ◌∷◌, ◌==◌, nat_eq,
  arith, any, any-append, is_some,
}
use project_ariadne.State.Snapshots.{Snapshot}
use project_ariadne.StateFile.Store.{
  Store, StoreError, Purpose, Action, for_close, for_flush, for_timer, new_store, conclude_write,
  run_actions, report,
}
use project_ariadne.StateFile.Store.Effects.{
  Effect, refuses, accepts, wakes, closes, stops, arms, begins, skips, saves, fails, concluded,
}
use project_ariadne.StateFile.Store.Saved.{run_actions-keeps, not_done}

module _ {Data : Type 0} (encode : Snapshot → Option Data) (size : Data → ℕ) (max_bytes : ℕ) where
  -- A wake-up is on its way, or the timer runs.
  abbrev pub is_due : Store Data → Bool
  is_due s = not (s.waking == 0) || s.wake || s.timer

  -- An error has been given to the reader of `Errors`, to a caller of `Flush` or to `Close`.
  abbrev pub gave_error : Store Data → Bool
  gave_error s = is_some s.reported || any is_some s.answers || is_some s.close_error

  abbrev pub IsDue : Store Data → Type 0
  IsDue s = (s.dirty && not (gave_error s)) ≡ true → is_due s ≡ true

  clean-IsDue :
      (p : Purpose) (e : Option StoreError) (s : Store Data)
      → s.dirty ≡ false
      → IsDue (concluded encode size max_bytes p e s)
  unfolding conclude_write
  clean-IsDue for_close e s c = λ d. ground (arith, c, d)
  clean-IsDue for_flush e s c = λ d. ground (arith, c, d)
  clean-IsDue for_timer e s c = λ d. ground (arith, c, d)

  concluded-IsDue :
      (p : Purpose) (s : Store Data)
      → s.close_error ≡ none
      → IsDue s
      → IsDue (concluded encode size max_bytes p none s)
  unfolding conclude_write any
  concluded-IsDue for_close s c h = λ d. h (ground (arith, c, d))
  concluded-IsDue for_flush s c h =
      λ d. h (ground (arith, d, any-append is_some s.answers (none ∷ [])))
  concluded-IsDue for_timer s c h = h

  failed-IsDue :
      (p : Purpose) (e : StoreError) (s : Store Data)
      → IsDue (concluded encode size max_bytes p (some e) s)
  unfolding conclude_write any
  failed-IsDue for_close e s = λ d. ground (arith, d)
  failed-IsDue for_flush e s = λ d. ground (arith, d, any-append is_some s.answers (some e ∷ []))
  failed-IsDue for_timer e s = λ d. reported s.reported d
    where
      reported :
          (r : Option StoreError)
          → (s.dirty
              && not (
                  is_some (report encode size max_bytes (some e) r)
                  || any is_some s.answers
                  || is_some s.close_error))
            ≡ true
          → is_due s ≡ true
      reported none d = ground (arith, d)
      reported (some first) d = ground (arith, d)

  -- With what keeps `close_error` empty while the worker runs.
  abbrev pub IsWaiting : Store Data → Type 0
  IsWaiting s =
      IsDue s × (s.done ≡ false → s.close_error ≡ none) × (s.done ≡ true → s.writing ≡ none)

  concluded-IsWaiting :
      (p : Purpose) (e : Option StoreError) (s : Store Data)
      → s.done ≡ false
      → s.close_error ≡ none
      → IsDue (concluded encode size max_bytes p e s)
      → IsWaiting (concluded encode size max_bytes p e s)
  unfolding conclude_write
  concluded-IsWaiting for_close e s d c h = (h, (λ d'. ground (arith, d')), (λ _. refl))
  concluded-IsWaiting for_flush e s d c h = (h, (λ _. c), (λ _. refl))
  concluded-IsWaiting for_timer e s d c h = (h, (λ _. c), (λ _. refl))

  Effect-IsWaiting :
      (s t : Store Data) → Effect encode size max_bytes s t → IsWaiting s → IsWaiting t
  Effect-IsWaiting s _ refuses h = h
  Effect-IsWaiting s _ (accepts cloned u) (h, c, n) = ((λ _. ground arith), c, n)
  Effect-IsWaiting s _ wakes (h, c, n) = ((λ _. ground arith), c, n)
  Effect-IsWaiting s _ closes h = h
  Effect-IsWaiting s _ (stops k) h = h
  Effect-IsWaiting s _ arms (h, c, n) = ((λ _. ground arith), c, n)
  Effect-IsWaiting s _ (begins p w d k a) (h, c, n) =
      ((λ d'. ground (arith, d')), c, (λ d'. ground (arith, d, d')))
  Effect-IsWaiting s _ (skips p w d k a) (h, c, n) =
      concluded-IsWaiting p none (record s { timer = false }) d (c d)
        (clean-IsDue p none (record s { timer = false }) k)
  Effect-IsWaiting s _ (saves w content e k) (h, c, n) =
      let d = not_done encode size max_bytes s w n e in
      concluded-IsWaiting w.purpose none (record s { file = some content }) d (c d)
        (concluded-IsDue w.purpose (record s { file = some content }) (c d) h)
  Effect-IsWaiting s _ (fails w error file e) (h, c, n) =
      let d = not_done encode size max_bytes s w n e in
      concluded-IsWaiting w.purpose (some error) _ d (c d) (failed-IsDue w.purpose error _)

  -- The latest snapshot is saved.
  abbrev pub IsWritten : Store Data → Data → Store Data → Type 0
  IsWritten s content t =
      (t.dirty ≡ false) × (t.writing ≡ none) × (t.file ≡ some content) × (t.latest ≡ s.latest)

  -- In every state that a new store comes to, a change that is not saved is due unless an error has
  -- been given.
  pub reached-IsDue :
      (initial : Snapshot) (actions : List Action) (s : Store Data)
      → run_actions encode size max_bytes actions (new_store encode size max_bytes initial) ≡ some s
      → IsDue s
  unfolding new_store
  reached-IsDue initial actions s e =
      let start : IsWaiting (new_store encode size max_bytes initial) =
        ((λ d. ground (arith, d)), (λ _. refl), (λ _. refl)) in
      (run_actions-keeps encode size max_bytes IsWaiting Effect-IsWaiting actions
        (new_store encode size max_bytes initial) s start e).0
