-- ===== src/State/Listing.antt =====
-- model.go: a map of records and the order list beside it, as `snapshot` reads them.
use project_ariadne.Base.{
  ℕ, ◌≡◌, refl, sym, ap, ap₂, ◌∙◌, subst, false, some, List, [], ◌∷◌, ◌++◌, map, ◌==◌, nat_eq, Dict,
  get, has, put, get_or, All-put_entry, All-get_entry, get-put, contains, contains-append, All,
  arith, beq_self, true, All-snoc,
}

-- No ID stands twice.
abbrev pub IsDistinct : List ℕ → Type 0
IsDistinct [] = Unit
IsDistinct (k ∷ ks) = (contains k ks ≡ false) × IsDistinct ks

module _ {A : Type 0} (key : A → ℕ) where
  -- The map holds exactly the listed records, each under its own ID, and the order list their IDs.
  pub record Listing (m : Dict ℕ A) (order : List ℕ) (xs : List A) : Type 0 where
    pub ordered : order ≡ map key xs
    pub held : All (λ (x : A). get (key x) m ≡ some x) xs
    pub distinct : IsDistinct order
    pub keyed : All (λ (e : ℕ × A). key e.1 ≡ e.0) m
    pub only : (k : ℕ) → has k m ≡ contains k order

  pub Listing-empty : Listing [] [] []
  unfolding contains get
  Listing-empty = record { ordered = refl; held = tt; distinct = tt; keyed = tt; only = λ k. refl }

  map-append : (xs ys : List A) → map key (xs ++ ys) ≡ map key xs ++ map key ys
  map-append [] ys = refl
  map-append (x ∷ xs) ys = ap (λ ks. key x ∷ ks) (map-append xs ys)

  -- A read of the map at another ID.
  pub other : (k j : ℕ) (v : A) (m : Dict ℕ A) → (k == j) ≡ false → get j (put k v m) ≡ get j m
  other k j v m e = ground (arith, get-put k j v m)

  pub put-held :
      (v : A) (m : Dict ℕ A) (xs : List A)
      → contains (key v) (map key xs) ≡ false
      → All (λ (x : A). get (key x) m ≡ some x) xs
      → All (λ (x : A). get (key x) (put (key v) v m) ≡ some x) xs
  unfolding contains
  put-held v m [] c h = tt
  put-held v m (x ∷ xs) c h = (
    other (key v) (key x) v m
          (ground (arith, nat_eq.beq_iff (key v) (key x), nat_eq.beq_iff (key x) (key v)))
        ∙ h.0,
    put-held v m xs (ground arith) h.1,
  )

  IsDistinct-append :
      (ks : List ℕ) (k : ℕ) → IsDistinct ks → contains k ks ≡ false → IsDistinct (ks ++ k ∷ [])
  unfolding contains
  IsDistinct-append [] k d c = (refl, tt)
  IsDistinct-append (j ∷ ks) k d c = (
    ground (arith, contains-append j ks (k ∷ []), nat_eq.beq_iff j k, nat_eq.beq_iff k j),
    IsDistinct-append ks k d.1 (ground arith),
  )

  -- A record under a new ID is put at the end.
  pub Listing-add :
      (v : A) (m : Dict ℕ A) (order : List ℕ) (xs : List A)
      → has (key v) m ≡ false
      → Listing m order xs
      → Listing (put (key v) v m) (order ++ key v ∷ []) (xs ++ v ∷ [])
  unfolding contains
  Listing-add v m order xs new l =
      let absent = sym (l.only (key v)) ∙ new in
      record {
        ordered = ap (λ ks. ks ++ key v ∷ []) l.ordered ∙ sym (map-append xs (v ∷ []));
        held =
            All-snoc (λ (x : A). get (key x) (put (key v) v m) ≡ some x) xs v
              (put-held v m xs (subst (λ ks. contains (key v) ks ≡ false) l.ordered absent) l.held)
              (ground (arith, get-put (key v) (key v) v m, beq_self (key v)));
        distinct = IsDistinct-append order (key v) l.distinct absent;
        keyed = All-put_entry (λ (e : ℕ × A). key e.1 ≡ e.0) (key v) v m l.keyed refl;
        only = λ k.
            ground (arith, get-put (key v) k v m, contains-append k order (key v ∷ []), l.only k);
      }

  -- What `snapshot` reads is the list.
  pub Listing-read :
      (zero : A) (m : Dict ℕ A) (order : List ℕ) (xs : List A)
      → Listing m order xs
      → map (λ id. get_or id zero m) order ≡ xs
  Listing-read zero m order xs l = ap (map (λ id. get_or id zero m)) l.ordered ∙ reads xs l.held
    where
      reads :
          (ys : List A)
          → All (λ (x : A). get (key x) m ≡ some x) ys
          → map (λ id. get_or id zero m) (map key ys) ≡ ys
      reads [] h = refl
      reads (y ∷ ys) h = ap₂ (λ a as'. a ∷ as') (rw (h.0, get_or) refl) (reads ys h.1)

  -- A record that is found is listed, under its own ID.
  pub Listing-get :
      (m : Dict ℕ A) (order : List ℕ) (xs : List A) (k : ℕ) (v : A)
      → Listing m order xs
      → get k m ≡ some v
      → (key v ≡ k) × (contains k order ≡ true)
  Listing-get m order xs k v l e = (
    All-get_entry (λ (e : ℕ × A). key e.1 ≡ e.0) k v m l.keyed e,
    sym (l.only k) ∙ ground (arith, e),
  )

  pub Listing-reread :
      (zero : A) (m : Dict ℕ A) (order : List ℕ) (xs : List A)
      → Listing m order xs
      → Listing m order (map (λ id. get_or id zero m) order)
  Listing-reread zero m order xs l =
      subst (Listing m order) (sym (Listing-read zero m order xs l)) l
