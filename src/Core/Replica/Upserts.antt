-- ===== src/Core/Replica/Upserts.antt =====
-- apply_event.go: `upsert` on a list does what `put` does to the map that the list is read from.
use project_ariadne.Base.{
  ℕ, ◌≡◌, refl, sym, ap, ◌∙◌, subst, true, false, some, List, [], ◌∷◌, map, ◌==◌, nat_eq, Dict, get,
  put, get-put, contains, All, All-put_entry, arith, Bool-cases, inl, inr, beq_self,
}
use project_ariadne.State.Listing.{Listing, IsDistinct, other, put-held}
use project_ariadne.Core.Replica.{upsert}

module _ {A : Type 0} (key : A → ℕ) where
  map-upsert :
      (v : A) (xs : List A)
      → contains (key v) (map key xs) ≡ true
      → map key (upsert key v xs) ≡ map key xs
  unfolding upsert contains
  map-upsert v [] c = ground arith
  map-upsert v (x ∷ xs) c = elim (Bool-cases (key x == key v)) [
    | inl here ↦ rw here (ap (λ k. k ∷ map key xs) (sym ((nat_eq.beq_iff (key x) (key v)).0 here)))
    | inr there ↦ rw there (ap (λ ks. key x ∷ ks) (map-upsert v xs (ground (arith, there))))
  ]

  upsert-held :
      (v : A) (m : Dict ℕ A) (xs : List A)
      → IsDistinct (map key xs)
      → All (λ (x : A). get (key x) m ≡ some x) xs
      → All (λ (x : A). get (key x) (put (key v) v m) ≡ some x) (upsert key v xs)
  unfolding upsert
  upsert-held v m [] d h = (ground (arith, get-put (key v) (key v) v m, beq_self (key v)), tt)
  upsert-held v m (x ∷ xs) d h = elim (Bool-cases (key x == key v)) [
    | inl here ↦ rw here (
      ground (arith, get-put (key v) (key v) v m, beq_self (key v)),
      put-held key v m xs
          (subst (λ k. contains k (map key xs) ≡ false) ((nat_eq.beq_iff (key x) (key v)).0 here)
            d.0)
          h.1,
    )
    | inr there ↦ rw there (
      other key (key v) (key x) v m
            (ground (arith, nat_eq.beq_iff (key v) (key x), nat_eq.beq_iff (key x) (key v)))
          ∙ h.0,
      upsert-held v m xs d.1 h.1,
    )
  ]

  -- A listed record is replaced in its place.
  pub Listing-put :
      (v : A) (m : Dict ℕ A) (order : List ℕ) (xs : List A)
      → contains (key v) order ≡ true
      → Listing key m order xs
      → Listing key (put (key v) v m) order (upsert key v xs)
  Listing-put v m order xs c l = record {
    ordered =
        l.ordered ∙ sym (map-upsert v xs (subst (λ ks. contains (key v) ks ≡ true) l.ordered c));
    held = upsert-held v m xs (subst IsDistinct l.ordered l.distinct) l.held;
    distinct = l.distinct;
    keyed = All-put_entry (λ (e : ℕ × A). key e.1 ≡ e.0) (key v) v m l.keyed refl;
    only = λ k. ground (arith, get-put (key v) k v m, l.only k, nat_eq.beq_iff (key v) k);
  }
