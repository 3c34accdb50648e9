-- ===== src/StateFile/Store/Saved.antt =====
-- store.go: what is saved when the store is clean, and when it has closed.
use project_ariadne.Base.{
  ℕ, ◌≡◌, refl, ap, sym, subst, ◌∙◌, Bool, true, false, ◌||◌, Option, none, some, List, [], ◌∷◌,
  ◌==◌, nat_eq, arith, Bool-cases, Option-cases, inl, inr, beq_self,
}
use project_ariadne.State.Snapshots.{Snapshot}
use project_ariadne.StateFile.Store.{
  Store, StoreError, Purpose, Write, Action, for_close, for_flush, for_timer, new_store,
  conclude_write, take_action, run_actions,
}
use project_ariadne.StateFile.Store.Effects.{
  Effect, refuses, accepts, wakes, closes, stops, arms, begins, skips, saves, fails, concluded,
  take_action-Effect, IsAllowed,
}

module _ {Data : Type 0} (encode : Snapshot → Option Data) (size : Data → ℕ) (max_bytes : ℕ) where
  -- A clean store has its latest snapshot in the file, or in a write that is under way.
  abbrev pub SavedBy : Option Write → Option Data → Snapshot → ℕ → Type 0
  SavedBy none file latest generation = file ≡ encode latest
  SavedBy (some w) file latest generation = (w.copied ≡ latest) × (w.generation ≡ generation)

  abbrev pub IsSaved : Store Data → Type 0
  IsSaved s = s.dirty ≡ false → SavedBy s.writing s.file s.latest s.generation

  concluded-IsSaved :
      (purpose : Purpose) (e : Option StoreError) (s : Store Data)
      → (s.dirty ≡ false → s.file ≡ encode s.latest)
      → IsSaved (concluded encode size max_bytes purpose e s)
  unfolding conclude_write
  concluded-IsSaved for_close e s h = h
  concluded-IsSaved for_flush e s h = h
  concluded-IsSaved for_timer e s h = h

  Effect-IsSaved : (s t : Store Data) → Effect encode size max_bytes s t → IsSaved s → IsSaved t
  Effect-IsSaved s _ refuses h = h
  Effect-IsSaved s _ (accepts cloned u) h = λ d. ground (arith, d)
  Effect-IsSaved s _ wakes h = h
  Effect-IsSaved s _ closes h = h
  Effect-IsSaved s _ (stops c) h = h
  Effect-IsSaved s _ arms h = h
  Effect-IsSaved s _ (begins purpose w d c a) h = λ _. (refl, refl)
  Effect-IsSaved s _ (skips purpose w d c a) h =
      concluded-IsSaved purpose none (record s { timer = false })
        (λ d'. subst (λ v. SavedBy v s.file s.latest s.generation) w (h d'))
  Effect-IsSaved s _ (saves w content e n) h =
      concluded-IsSaved w.purpose none (record s { file = some content })
        (λ d. sym n ∙ ap encode (subst (λ v. SavedBy v s.file s.latest s.generation) e (h d)).0)
  Effect-IsSaved s _ (fails w error file e) h =
      concluded-IsSaved w.purpose (some error)
        (record s { file = file; dirty = s.dirty || s.generation == w.generation })
        (λ d.
          let same =
            (subst (λ v. SavedBy v s.file s.latest s.generation) e (h (ground (arith, d)))).1 in
          ground (arith, d, same, beq_self s.generation))

  -- By induction on the actions.
  pub run_actions-keeps :
      (P : Store Data → Type 0)
      → ((s t : Store Data) → Effect encode size max_bytes s t → P s → P t)
      → (actions : List Action) (s t : Store Data) → P s
      → run_actions encode size max_bytes actions s ≡ some t
      → P t
  unfolding run_actions
  run_actions-keeps P keeps [] s t h e = subst P (ground (arith, e)) h
  run_actions-keeps P keeps (a ∷ actions) s t h e =
      elim (Option-cases (take_action encode size max_bytes a s)) [
        | inl stuck ↦ ground (arith, stuck, e)
        | inr (u, taken) ↦
            run_actions-keeps P keeps actions u t
              (keeps s u (take_action-Effect encode size max_bytes a s u taken) h)
              (ground (arith, taken, e))
      ]

  -- Whatever happens after a change was taken: when the store is clean and does not write, the file
  -- holds the encoding of the latest snapshot.
  pub clean_store-IsSaved :
      (actions : List Action) (s t : Store Data)
      → s.dirty ≡ true
      → run_actions encode size max_bytes actions s ≡ some t
      → t.dirty ≡ false
      → t.writing ≡ none
      → t.file ≡ encode t.latest
  clean_store-IsSaved actions s t d e clean idle =
      subst (λ v. SavedBy v t.file t.latest t.generation) idle
        (run_actions-keeps IsSaved Effect-IsSaved actions s t (λ c. ground (arith, c, d)) e clean)

  -- What closing has done.
  abbrev ForClose : Purpose → Bool → Bool → Type 0
  ForClose for_close closing dirty = (closing ≡ true) × (dirty ≡ false)
  ForClose for_flush closing dirty = Unit
  ForClose for_timer closing dirty = Unit

  abbrev WritesFor : Option Write → Bool → Bool → Type 0
  WritesFor none closing dirty = Unit
  WritesFor (some w) closing dirty = ForClose w.purpose closing dirty

  abbrev pub IsClosing : Store Data → Type 0
  IsClosing s =
      (s.stopped ≡ true → s.closing ≡ true)
      × WritesFor s.writing s.closing s.dirty
      × (s.done ≡ true → s.closing ≡ true)
      × (s.done ≡ true → s.writing ≡ none)
      × (s.done ≡ true → s.close_error ≡ none → s.dirty ≡ false)

  WritesFor-accept :
      (w : Option Write) (closing dirty : Bool)
      → closing ≡ false
      → WritesFor w closing dirty
      → WritesFor w closing true
  WritesFor-accept none closing dirty u h = tt
  WritesFor-accept (some w) closing dirty u h = at w.purpose h
    where
      at : (p : Purpose) → ForClose p closing dirty → ForClose p closing true
      at for_close k = ground (arith, u, k.0)
      at for_flush k = tt
      at for_timer k = tt

  WritesFor-close :
      (w : Option Write) (closing dirty : Bool) → WritesFor w closing dirty → WritesFor w true dirty
  WritesFor-close none closing dirty h = tt
  WritesFor-close (some w) closing dirty h = at w.purpose h
    where
      at : (p : Purpose) → ForClose p closing dirty → ForClose p true dirty
      at for_close k = (refl, k.1)
      at for_flush k = tt
      at for_timer k = tt

  -- What a case of the loop needs in order to end.
  abbrev CanEnd : Purpose → Option StoreError → Store Data → Type 0
  CanEnd for_close e s = (s.closing ≡ true) × (e ≡ none → s.dirty ≡ false)
  CanEnd for_flush e s = Unit
  CanEnd for_timer e s = Unit

  concluded-IsClosing :
      (purpose : Purpose) (e : Option StoreError) (s : Store Data)
      → (s.stopped ≡ true → s.closing ≡ true)
      → s.done ≡ false
      → CanEnd purpose e s
      → IsClosing (concluded encode size max_bytes purpose e s)
  unfolding conclude_write
  concluded-IsClosing for_close e s h d c = (h, tt, (λ _. c.0), (λ _. refl), (λ _. c.1))
  concluded-IsClosing for_flush e s h d c =
      (h, tt, (λ d'. ground (arith, d, d')), (λ _. refl), (λ d' _. ground (arith, d, d')))
  concluded-IsClosing for_timer e s h d c =
      (h, tt, (λ d'. ground (arith, d, d')), (λ _. refl), (λ d' _. ground (arith, d, d')))

  -- A store that writes is not done.
  pub not_done :
      (s : Store Data) (w : Write)
      → (s.done ≡ true → s.writing ≡ none)
      → s.writing ≡ some w
      → s.done ≡ false
  not_done s w h e = elim (Bool-cases s.done) [ inl d ↦ ground (arith, sym (h d) ∙ e) | inr d ↦ d ]

  saves-CanEnd : (p : Purpose) (s : Store Data) → ForClose p s.closing s.dirty → CanEnd p none s
  saves-CanEnd for_close s h = (h.0, λ _. h.1)
  saves-CanEnd for_flush s h = tt
  saves-CanEnd for_timer s h = tt

  fails-CanEnd :
      (p : Purpose) (e : StoreError) (s : Store Data) (dirty : Bool)
      → ForClose p s.closing dirty
      → CanEnd p (some e) s
  fails-CanEnd for_close e s dirty h = (h.0, λ n. ground arith)
  fails-CanEnd for_flush e s dirty h = tt
  fails-CanEnd for_timer e s dirty h = tt

  skips-CanEnd :
      (p : Purpose) (s : Store Data)
      → IsAllowed encode size max_bytes p s
      → (s.stopped ≡ true → s.closing ≡ true)
      → s.dirty ≡ false
      → CanEnd p none s
  skips-CanEnd for_close s a h d = (h a, λ _. d)
  skips-CanEnd for_flush s a h d = tt
  skips-CanEnd for_timer s a h d = tt

  begins-ForClose :
      (p : Purpose) (s : Store Data)
      → IsAllowed encode size max_bytes p s
      → (s.stopped ≡ true → s.closing ≡ true)
      → ForClose p s.closing false
  begins-ForClose for_close s a h = (h a, refl)
  begins-ForClose for_flush s a h = tt
  begins-ForClose for_timer s a h = tt

  Effect-IsClosing :
      (s t : Store Data) → Effect encode size max_bytes s t → IsClosing s → IsClosing t
  Effect-IsClosing s _ refuses h = h
  Effect-IsClosing s _ (accepts cloned u) (h, w, dc, dn, de) = (
    h,
    WritesFor-accept s.writing s.closing s.dirty u w,
    dc,
    dn,
    (λ d _. ground (arith, u, dc d)),
  )
  Effect-IsClosing s _ wakes h = h
  Effect-IsClosing s _ closes (h, w, dc, dn, de) =
      ((λ _. refl), WritesFor-close s.writing s.closing s.dirty w, (λ _. refl), dn, de)
  Effect-IsClosing s _ (stops c) (h, w, dc, dn, de) = ((λ _. c), w, dc, dn, de)
  Effect-IsClosing s _ arms h = h
  Effect-IsClosing s _ (begins purpose w d c a) (h, _, dc, dn, de) =
      (h, begins-ForClose purpose s a h, dc, (λ d'. ground (arith, d, d')), (λ d' _. refl))
  Effect-IsClosing s _ (skips purpose w d c a) (h, _, dc, dn, de) =
      concluded-IsClosing purpose none (record s { timer = false }) h d
        (skips-CanEnd purpose (record s { timer = false }) (allowed purpose a) h c)
    where
      allowed :
          (p : Purpose)
          → IsAllowed encode size max_bytes p s
          → IsAllowed encode size max_bytes p (record s { timer = false })
      allowed for_close k = k
      allowed for_flush k = tt
      allowed for_timer k = tt
  Effect-IsClosing s _ (saves w content e n) (h, wr, dc, dn, de) =
      concluded-IsClosing w.purpose none (record s { file = some content }) h (not_done s w dn e)
        (saves-CanEnd w.purpose (record s { file = some content })
          (subst (λ v. WritesFor v s.closing s.dirty) e wr))
  Effect-IsClosing s _ (fails w error file e) (h, wr, dc, dn, de) =
      concluded-IsClosing w.purpose (some error) _ h (not_done s w dn e)
        (fails-CanEnd w.purpose error _ s.dirty (subst (λ v. WritesFor v s.closing s.dirty) e wr))

  -- A store that was new, took changes and has closed: if `Close` returns nil although a change was
  -- ever taken, then the file holds the encoding of the latest snapshot.
  pub closed_store-IsSaved :
      (initial : Snapshot) (before after : List Action) (s t : Store Data)
      → run_actions encode size max_bytes before (new_store encode size max_bytes initial) ≡ some s
      → s.dirty ≡ true
      → run_actions encode size max_bytes after s ≡ some t
      → t.done ≡ true
      → t.close_error ≡ none
      → t.file ≡ encode t.latest
  unfolding new_store
  closed_store-IsSaved initial before after s t b d e done ok =
      let start : IsClosing (new_store encode size max_bytes initial) =
        ((λ d. ground (arith, d)), tt, (λ d. ground (arith, d)), (λ _. refl), (λ _ _. refl)) in
      let (h, w, dc, dn, de) =
        run_actions-keeps IsClosing Effect-IsClosing after s t
          (run_actions-keeps IsClosing Effect-IsClosing before
            (new_store encode size max_bytes initial) s start b)
          e in
      clean_store-IsSaved after s t d e (de done ok) (dn done)
