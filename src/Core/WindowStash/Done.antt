-- ===== src/Core/WindowStash/Done.antt =====
-- stash.go, `stashWindow` and `restoreWindow`: what a success has done.
use project_ariadne.Base.{
  ℕ, ◌≡◌, refl, ap, sym, Bool, true, false, Option, none, some, ◌==◌, nat_eq, string_eq, without,
  any, values, get, get_or, has, put, delete, arith,
}
use project_ariadne.Layout.Hint.{StashedPane}
use project_ariadne.Model.Errors.{CoreError, already_exists, Result, ok}
use project_ariadne.Model.Places.{Workspace, Window, StashedWindow, zero_window}
use project_ariadne.State.Defs.{State}
use project_ariadne.Core.Machine.{Machine, Exec, Outcome, refuse_if, or_fail, ◌>>=◌, ◌>>◌}
use project_ariadne.Core.WindowStash.{
  index_window_id, insert_window_id, stash_window, restore_window, RestoreWindow,
  restore_workspace_id, restore_index,
}
use project_ariadne.Core.Windows.{window_named}

-- A run that succeeds has passed its checks.
found-ok :
    {A : Type 0} (m m' : Machine) (r : Option A) (e : CoreError) (next : A → Exec Outcome)
    (x : Outcome)
    → (or_fail r e >>= next) m ≡ (ok x, m')
    → (a : A) × (r ≡ some a) × (next a m ≡ (ok x, m'))
found-ok m m' none e next x h = ground (arith, h)
found-ok m m' (some a) e next x h = (a, refl, h)

refuse-ok :
    (m m' : Machine) (b : Bool) (e : CoreError) (next : Exec Outcome) (x : Outcome)
    → (refuse_if b e >> next) m ≡ (ok x, m')
    → (b ≡ false) × (next m ≡ (ok x, m'))
refuse-ok m m' true e next x h = ground (arith, h)
refuse-ok m m' false e next x h = (refl, h)

abbrev pub left_by : Window → Workspace → Workspace
left_by window workspace = record workspace { window_ids = without window.id workspace.window_ids }

abbrev pub hint_for : Window → Workspace → ℕ → StashedWindow
hint_for window workspace index = record {
  window_id = window.id;
  origin_workspace_id = workspace.id;
  original_window_index = index;
}

-- What a stashing that succeeds has done.
abbrev pub Stashed : ℕ → State → State → Type 0
Stashed id s s' =
    (window : Window) × (workspace : Workspace) × (index : ℕ) × (get id s.windows ≡ some window)
    × (has window.id s.stashed_windows ≡ false)
    × (get window.workspace_id s.workspaces ≡ some workspace)
    × (index_window_id workspace.window_ids window.id ≡ some index)
    × (s' ≡ record s {
      workspaces = put workspace.id (left_by window workspace) s.workspaces;
      stashed_windows = put window.id (hint_for window workspace index) s.stashed_windows;
    })

pub stash_window-Stashed :
    (id : ℕ) (m m' : Machine) (x : Outcome)
    → stash_window id m ≡ (ok x, m')
    → Stashed id m.state m'.state
unfolding stash_window
stash_window-Stashed id m m' x e =
    let (window, w, e1) = found-ok m m' (get id m.state.windows) _ _ x e in
    let (fresh, e2) = refuse-ok m m' (has window.id m.state.stashed_windows) _ _ x e1 in
    let (empty, e3) =
      refuse-ok m m'
        (any (λ (h : StashedPane). h.origin_window_id == window.id) (values m.state.stashed_panes))
        _ _ x e2 in
    let (workspace, p, e4) = found-ok m m' (get window.workspace_id m.state.workspaces) _ _ x e3 in
    let (index, i, e5) = found-ok m m' (index_window_id workspace.window_ids window.id) _ _ x e4 in
    (
      window,
      workspace,
      index,
      w,
      fresh,
      p,
      i,
      sym (ap (λ (r : Result Outcome × Machine). r.1.state) e5),
    )

abbrev pub widened_by : RestoreWindow → StashedWindow → ℕ → Workspace → Workspace
widened_by c hint id workspace = record workspace {
  window_ids = insert_window_id workspace.window_ids (restore_index c hint workspace) id;
}

abbrev pub back_in : Window → Workspace → Window
back_in window workspace = record window { workspace_id = workspace.id }

-- What a restoring that succeeds has done.
abbrev pub Restored : RestoreWindow → Machine → State → Type 0
Restored c m s' =
    let window : Window = get_or c.window_id zero_window m.state.windows in
    (hint : StashedWindow) × (workspace : Workspace) × (get c.window_id m.state.stashed_windows
      ≡ some hint)
    × (get (restore_workspace_id m c hint) m.state.workspaces ≡ some workspace)
    × (s' ≡ record m.state {
      windows = put window.id (back_in window workspace) m.state.windows;
      workspaces = put workspace.id (widened_by c hint window.id workspace) m.state.workspaces;
      stashed_windows = delete window.id m.state.stashed_windows;
    })

pub restore_window-Restored :
    (c : RestoreWindow) (m m' : Machine) (x : Outcome)
    → restore_window c m ≡ (ok x, m')
    → Restored c m m'.state
unfolding restore_window
restore_window-Restored c m m' x e =
    let (hint, h, e1) = found-ok m m' (get c.window_id m.state.stashed_windows) _ _ x e in
    let (workspace, p, e2) =
      found-ok m m' (get (restore_workspace_id m c hint) m.state.workspaces) _ _ x e1 in
    let window : Window = get_or c.window_id zero_window m.state.windows in
    let (free, e3) =
      refuse-ok m m' (any (window_named m.state window.name) workspace.window_ids) already_exists _
        x e2 in
    (hint, workspace, h, p, sym (ap (λ (r : Result Outcome × Machine). r.1.state) e3))
