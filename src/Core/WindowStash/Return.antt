-- ===== src/Core/WindowStash/Return.antt =====
-- stash.go, `stashWindow` and `restoreWindow`, one after the other.
use project_ariadne.Base.{
  ℕ, ◌≤◌, ◌≡◌, ap, sym, ◌∙◌, subst, true, false, Option, none, some, List, [], ◌∷◌, ◌==◌, nat_eq,
  string_eq, Bool-cases, Option-cases, inl, inr, count, without, length, get, get_or, has, put,
  delete, get-put, get-delete, beq_self, arith, is_some, Dict, contains,
}
use project_ariadne.Model.Errors.{ok}
use project_ariadne.Model.Places.{Workspace, Window, StashedWindow, zero_window}
use project_ariadne.State.Defs.{State}
use project_ariadne.Core.Machine.{Machine, Outcome}
use project_ariadne.Core.WindowStash.{
  index_window_id, insert_window_id, stash_window, restore_window, RestoreWindow,
  restore_workspace_id, restore_index,
}
use project_ariadne.Core.WindowStash.Order.{insert-without_window}
use project_ariadne.Core.WindowStash.Done.{
  left_by, hint_for, widened_by, back_in, stash_window-Stashed, restore_window-Restored,
}

-- The index fits into the list without the window.
index-fits :
    (ids : List ℕ) (id index : ℕ)
    → count id ids ≡ 1
    → index_window_id ids id ≡ some index
    → index ≤ length (without id ids)
unfolding count without index_window_id
index-fits [] id index h e = ground (arith, e)
index-fits (x ∷ ids) id index h e = elim (Bool-cases (x == id)) [
  | inl p ↦ ground (arith, e, p)
  | inr p ↦ elim (Option-cases (index_window_id ids id)) [
    | inl missed ↦ ground (arith, e, p, missed)
    | inr (j, found) ↦
        let fits : j ≤ length (without id ids) = index-fits ids id j (ground (arith, h, p)) found in
        ground (arith, e, p, found, fits)
  ]
]

some_injective : {A : Type 0} (a b : A) → some a ≡ some b → a ≡ b
some_injective a b e = ground (arith, e)

module _ (c : RestoreWindow) (window : Window) (workspace : Workspace) (index : ℕ) where
  -- The window goes back to the index that it had.
  restore_index-stashed :
      c.workspace_id ≡ 0
      → index ≤ length (without window.id workspace.window_ids)
      → restore_index c (hint_for window workspace index) (left_by window workspace) ≡ index
  unfolding restore_index
  restore_index-stashed any_workspace fits =
      ground (arith, any_workspace, fits, beq_self workspace.id)

  widened-stashed :
      c.workspace_id ≡ 0
      → count window.id workspace.window_ids ≡ 1
      → index_window_id workspace.window_ids window.id ≡ some index
      → widened_by c (hint_for window workspace index) window.id (left_by window workspace)
        ≡ workspace
  widened-stashed any_workspace once stands =
      ap (λ (ids : List ℕ). record workspace { window_ids = ids })
        (ap (λ (i : ℕ). insert_window_id (without window.id workspace.window_ids) i window.id)
            (restore_index-stashed any_workspace
              (index-fits workspace.window_ids window.id index once stands))
          ∙ insert-without_window workspace.window_ids window.id index once stands)

-- Putting a value back where it was changes no reading.
get-put_back :
    {V : Type 0} (k j : ℕ) (v w : V) (m : Dict ℕ V)
    → get k m ≡ some v
    → get j (put k v (put k w m)) ≡ get j m
get-put_back k j v w m e =
    ground (arith, e, get-put k j v (put k w m), get-put k j w m, nat_eq.beq_iff k j)

get-put_same :
    {V : Type 0} (k j : ℕ) (v : V) (m : Dict ℕ V) → get k m ≡ some v → get j (put k v m) ≡ get j m
get-put_same k j v m e = ground (arith, e, get-put k j v m, nat_eq.beq_iff k j)

get-delete-put :
    {V : Type 0} (k j : ℕ) (v : V) (m : Dict ℕ V)
    → has k m ≡ false
    → get j (delete k (put k v m)) ≡ get j m
get-delete-put k j v m e = elim (Option-cases (get k m)) [
  | inl absent ↦
      ground (arith, absent, get-delete k j (put k v m), get-put k j v m, nat_eq.beq_iff k j)
  | inr (w, present) ↦ ground (arith, e, present)
]

-- Windows and workspaces are stored under their IDs, no workspace has the ID 0, and none lists a
-- window twice.
abbrev pub ArePlaced : State → Type 0
ArePlaced s =
    ((id : ℕ) (w : Window) → get id s.windows ≡ some w → w.id ≡ id)
    × ((id : ℕ) (w : Workspace)
        → get id s.workspaces ≡ some w
        → (w.id ≡ id)
          × ((id == 0) ≡ false)
          × ((listed : ℕ) → contains listed w.window_ids ≡ true → count listed w.window_ids ≡ 1))

contains-index :
    (ids : List ℕ) (id index : ℕ) → index_window_id ids id ≡ some index → contains id ids ≡ true
unfolding contains index_window_id
contains-index [] id index e = ground (arith, e)
contains-index (x ∷ ids) id index e = elim (Option-cases (index_window_id ids id)) [
  | inl missed ↦ ground (arith, e, missed)
  | inr (j, found) ↦ ground (arith, found, contains-index ids id j)
]

returns_home :
    (c : RestoreWindow) (m : Machine) (hint : StashedWindow)
    → c.workspace_id ≡ 0
    → has hint.origin_workspace_id m.state.workspaces ≡ true
    → (hint.origin_workspace_id == 0) ≡ false
    → restore_workspace_id m c hint ≡ hint.origin_workspace_id
unfolding restore_workspace_id
returns_home c m hint any_workspace there nonzero = ground (arith, any_workspace, there, nonzero)

abbrev restored : RestoreWindow → State → Window → StashedWindow → Workspace → State
restored c s window hint workspace = record s {
  windows = put window.id (back_in window workspace) s.windows;
  workspaces = put workspace.id (widened_by c hint window.id workspace) s.workspaces;
  stashed_windows = delete window.id s.stashed_windows;
}

abbrev found_window : Option Window → Window
found_window o = elim o [ none ↦ zero_window | some w ↦ w ]

-- The state after both, written out.
abbrev stashed_state : State → Window → Workspace → ℕ → State
stashed_state s window workspace index = record s {
  workspaces = put workspace.id (left_by window workspace) s.workspaces;
  stashed_windows = put window.id (hint_for window workspace index) s.stashed_windows;
}

restored-stashed :
    (c : RestoreWindow) (s : State) (m' m'' : Machine) (x : Outcome) (window : Window)
    (workspace : Workspace) (index : ℕ)
    → window.id ≡ c.window_id
    → (workspace.id == 0) ≡ false
    → c.workspace_id ≡ 0
    → get c.window_id s.windows ≡ some window
    → m'.state ≡ stashed_state s window workspace index
    → restore_window c m' ≡ (ok x, m'')
    → m''.state
      ≡ restored c
          (stashed_state s window workspace index)
          window
          (hint_for window workspace index)
          (left_by window workspace)
restored-stashed c s m' m'' x window workspace index own nonzero any_workspace w e1 run =
    let (hint, there, h, p, e2) = restore_window-Restored c m' m'' x run in
    let own_hint : StashedWindow = hint_for window workspace index in
    let left : Workspace = left_by window workspace in
    let same_hint : hint ≡ own_hint = some_injective hint own_hint (
      sym h
      ∙ ap (λ (t : State). get c.window_id t.stashed_windows) e1
      ∙ ground (
        arith,
        own,
        get-put window.id c.window_id own_hint s.stashed_windows,
        beq_self c.window_id,
      )) in
    let found : get workspace.id m'.state.workspaces ≡ some left =
      ap (λ (t : State). get workspace.id t.workspaces) e1
      ∙ ground
          (arith, get-put workspace.id workspace.id left s.workspaces, beq_self workspace.id) in
    let home : restore_workspace_id m' c hint ≡ workspace.id =
      ap (restore_workspace_id m' c) same_hint
      ∙ returns_home c m' own_hint any_workspace (ap is_some found) nonzero in
    let same_workspace : there ≡ left =
      some_injective there left
        (sym p ∙ ap (λ (id : ℕ). get id m'.state.workspaces) home ∙ found) in
    let same_window : get_or c.window_id zero_window m'.state.windows ≡ window =
      ap (λ (t : State). found_window (get c.window_id t.windows)) e1 ∙ ap found_window w in
    e2 ∙ λ i. restored c (e1 i) (same_window i) (same_hint i) (same_workspace i)

pub restore_window-stash_window :
    (c : RestoreWindow) (m m' m'' : Machine) (x x' : Outcome)
    → ArePlaced m.state
    → c.workspace_id ≡ 0
    → stash_window c.window_id m ≡ (ok x, m')
    → restore_window c m' ≡ (ok x', m'')
    → (id : ℕ)
    → (get id m''.state.workspaces ≡ get id m.state.workspaces)
      × (get id m''.state.windows ≡ get id m.state.windows)
      × (get id m''.state.stashed_windows ≡ get id m.state.stashed_windows)
restore_window-stash_window c m m' m'' x x' placed any_workspace stash restore id =
    let (window, workspace, index, w, fresh, p, stands, e1) =
      stash_window-Stashed c.window_id m m' x stash in
    let own : window.id ≡ c.window_id = placed.0 c.window_id window w in
    let (home, nonzero, once) = placed.1 window.workspace_id workspace p in
    let s : State = m.state in
    let e2 =
      restored-stashed c s m' m'' x' window workspace index own
        (subst (λ (k : ℕ). (k == 0) ≡ false) (sym home) nonzero) any_workspace w e1 restore in
    let left : Workspace = left_by window workspace in
    let widened =
      widened-stashed c window workspace index any_workspace
        (once window.id (contains-index workspace.window_ids window.id index stands)) stands in
    (
      ap (λ (t : State). get id t.workspaces) e2
          ∙ ap (λ (v : Workspace). get id (put workspace.id v (put workspace.id left s.workspaces)))
              widened
          ∙ get-put_back workspace.id id workspace left s.workspaces
              (ap (λ (k : ℕ). get k s.workspaces) home ∙ p),
      ap (λ (t : State). get id t.windows) e2
          ∙ ap (λ (k : ℕ). get id (put window.id (record window { workspace_id = k }) s.windows))
              home
          ∙ get-put_same window.id id window s.windows (ap (λ (k : ℕ). get k s.windows) own ∙ w),
      ap (λ (t : State). get id t.stashed_windows) e2
          ∙ get-delete-put window.id id (hint_for window workspace index) s.stashed_windows fresh,
    )
