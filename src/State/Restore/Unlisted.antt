-- ===== src/State/Restore/Unlisted.antt =====
-- model.go, `validateHierarchy`: a window that no workspace lists must be stashed.
use project_ariadne.Base.{
  ℕ, ◌≡◌, ◌∙◌, subst, Bool, true, false, not, some, List, [], ◌∷◌, map, ◌==◌, nat_eq, Dict, get,
  has, get_or, keys, contains, any, all, is_some, arith, Bool-cases, Option-cases, inl, inr, sym,
}
use project_ariadne.Model.Places.{Workspace, StashedWindow, zero_workspace}
use project_ariadne.State.Listing.{Listing-read}
use project_ariadne.State.Defs.{State}
use project_ariadne.State.Hierarchy.{
  validate_hierarchy, see_windows, see_workspaces, windows_placed, beq_bool,
}
use project_ariadne.State.Restore.{state_from_snapshot, validate_snapshot, Snapshot, Window}
use project_ariadne.State.Restore.Listed.{state_from_snapshot-Built}

-- The window `id` in no workspace of a list.
abbrev pub is_unlisted : ℕ → List Workspace → Bool
is_unlisted id ws = not (any (λ (w : Workspace). contains id w.window_ids) ws)

abbrev pub is_unstashed : ℕ → List StashedWindow → Bool
is_unstashed id sw = not (any (λ (w : StashedWindow). w.window_id == id) sw)

see_windows-unlisted :
    (s : State) (workspace_id : ℕ) (ids seen out : List ℕ) (id : ℕ)
    → contains id ids ≡ false
    → see_windows s workspace_id ids seen ≡ some out
    → contains id out ≡ contains id seen
unfolding see_windows contains
see_windows-unlisted s workspace_id [] seen out id c e = ground arith
see_windows-unlisted s workspace_id (i ∷ ids) seen out id c e =
    ground (arith, see_windows-unlisted s workspace_id ids (i ∷ seen) out id)

see_workspaces-unlisted :
    (s : State) (order seen out : List ℕ) (id : ℕ)
    → is_unlisted id (map (λ k. get_or k zero_workspace s.workspaces) order) ≡ true
    → see_workspaces s order seen ≡ some out
    → contains id out ≡ contains id seen
unfolding see_workspaces any
see_workspaces-unlisted s [] seen out id c e = ground arith
see_workspaces-unlisted s (k ∷ order) seen out id c e =
    let w = get_or k zero_workspace s.workspaces in
    elim (Option-cases (see_windows s w.id w.window_ids seen)) [
      | inl refused ↦ ground (arith, refused)
      | inr (next, seen_next) ↦
          see_workspaces-unlisted s order next out id (ground arith) (ground (arith, seen_next))
          ∙ see_windows-unlisted s w.id w.window_ids seen next id (ground arith) seen_next
    ]

contains-keys : {V : Type 0} (k : ℕ) (m : Dict ℕ V) → has k m ≡ true → contains k (keys m) ≡ true
unfolding get keys contains
contains-keys k [] h = ground arith
contains-keys k ((j, v) ∷ m) h = ground (arith, contains-keys k m)

all-contains :
    (p : ℕ → Bool) (xs : List ℕ) (a : ℕ) → all p xs ≡ true → contains a xs ≡ true → p a ≡ true
unfolding all contains
all-contains p [] a h c = ground arith
all-contains p (x ∷ xs) a h c = elim (Bool-cases (x == a)) [
  | inl here ↦ subst (λ y. p y ≡ true) ((nat_eq.beq_iff x a).0 here) (ground arith)
  | inr there ↦ all-contains p xs a (ground arith) (ground (arith, there))
]

-- What a hierarchy that holds says of one window.
hierarchy_places :
    (s : State) (id : ℕ)
    → is_some (validate_hierarchy s) ≡ true
    → has id s.windows ≡ true
    → is_unlisted id (map (λ k. get_or k zero_workspace s.workspaces) s.workspace_order) ≡ true
    → has id s.stashed_windows ≡ true
unfolding validate_hierarchy windows_placed contains
hierarchy_places s id v h u = elim (Option-cases (see_workspaces s s.workspace_order [])) [
  | inl refused ↦ ground (arith, refused)
  | inr (seen, e) ↦
      let absent = see_workspaces-unlisted s s.workspace_order [] seen id u e in
      let placed =
        all-contains (λ id. not (beq_bool (contains id seen) (has id s.stashed_windows)))
          (keys s.windows) id (ground (arith, e)) (contains-keys id s.windows h) in
      ground (arith, absent, placed)
]

-- A snapshot that holds a window which no workspace lists, and which is not stashed, is invalid.
pub unlisted_window-invalid :
    (snap : Snapshot) (id : ℕ)
    → contains id (map (λ (w : Window). w.id) snap.windows) ≡ true
    → is_unlisted id snap.workspaces ≡ true
    → is_unstashed id snap.stashed_windows ≡ true
    → validate_snapshot snap ≡ false
unfolding validate_snapshot
unlisted_window-invalid snap id c u t = elim (Option-cases (state_from_snapshot snap)) [
  | inl refused ↦ ground (arith, refused)
  | inr (s, e) ↦
      let ((workspaces, windows, panes, stashed), hierarchy) = state_from_snapshot-Built snap s e in
      let held = windows.only id ∙ subst (λ ks. contains id ks ≡ true) (sym windows.ordered) c in
      let unlisted =
        subst (λ ws. is_unlisted id ws ≡ true)
          (sym (
            Listing-read (λ (w : Workspace). w.id) zero_workspace s.workspaces s.workspace_order
              snap.workspaces workspaces))
          u in
      ground (arith, hierarchy_places s id hierarchy held unlisted, stashed id)
]
