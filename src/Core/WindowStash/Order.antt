-- ===== src/Core/WindowStash/Order.antt =====
-- stash.go, `stashWindow` and `restoreWindow`: the place of a window in its workspace.
use project_ariadne.Base.{
  ℕ, suc, ◌≡◌, false, Option, none, some, List, [], ◌∷◌, ◌==◌, nat_eq, Bool-cases, inl, inr, count,
  contains, without, without_absent, refl, arith,
}
use project_ariadne.Core.WindowStash.{index_window_id, insert_window_id}

count_absent : (id : ℕ) (ids : List ℕ) → count id ids ≡ 0 → contains id ids ≡ false
unfolding count contains
count_absent id [] h = refl
count_absent id (x ∷ ids) h = ground (arith, count_absent id ids)

insert_step :
    (ids : List ℕ) (x id : ℕ) (found : Option ℕ) (i : ℕ)
    → ((j : ℕ) → found ≡ some j → insert_window_id (without id ids) j id ≡ ids)
    → (elim found [ none ↦ none | some j ↦ some (suc j) ]) ≡ some i
    → insert_window_id (x ∷ without id ids) i id ≡ x ∷ ids
unfolding insert_window_id
insert_step ids x id none i ih e = ground arith
insert_step ids x id (some j) i ih e = ground (arith, ih j refl)

-- A window that a workspace lists once and that is taken out of the list goes back to where it was,
-- if it is put in again at the index that it had.
pub insert-without_window :
    (ids : List ℕ) (id index : ℕ)
    → count id ids ≡ 1
    → index_window_id ids id ≡ some index
    → insert_window_id (without id ids) index id ≡ ids
unfolding count without index_window_id insert_window_id
insert-without_window [] id index h e = ground arith
insert-without_window (x ∷ ids) id index h e = elim (Bool-cases (x == id)) [
  | inl p ↦ ground (arith, count_absent id ids, without_absent id ids, nat_eq.beq_iff x id)
  | inr p ↦ ground (
    arith,
    insert_step ids x id (index_window_id ids id) index
        (λ j. insert-without_window ids id j (ground arith)),
  )
]
