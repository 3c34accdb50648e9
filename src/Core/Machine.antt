-- ===== src/Core/Machine.antt =====
-- What a command reads and writes: the state and the focus of each frontend. A command is an action
-- that returns a reply and maybe an event, or an error; what it wrote before an error stays
-- written, as in the source.
use project_ariadne.Base.{
  ℕ, Bool, true, false, Option, none, some, List, [], ◌∷◌, nat_eq, Dict, get_or, if◌then◌else◌,
}
use project_ariadne.Layout.Tree.{LayoutNode, first_pane}
use project_ariadne.Model.Errors.{CoreError, Result, ok, err}
use project_ariadne.Model.Places.{Window, FrontendState, zero_workspace, zero_window}
use project_ariadne.State.Defs.{State}
use project_ariadne.Core.Events.{EventKind, Payload, Event, Reply}

pub record Machine : Type 0 where
  pub state : State
  pub frontends : Dict ℕ FrontendState

abbrev pub Exec : Type 0 → Type 0
Exec A = Machine → Result A × Machine

abbrev pub continue : {A B : Type 0} → Result A × Machine → (A → Exec B) → Result B × Machine
continue (ok a, m) f = f a m
continue (err e, m) f = (err e, m)

infixl 5 ◌>>=◌ ◌>>◌
abbrev pub ◌>>=◌ : {A B : Type 0} → Exec A → (A → Exec B) → Exec B
◌>>=◌ action f m = continue (action m) f

abbrev pub ◌>>◌ : {B : Type 0} → Exec (Unit {0}) → Exec B → Exec B
◌>>◌ action next m = continue (action m) (λ _. next)

abbrev pub raise : {A : Type 0} → CoreError → Exec A
raise e m = (err e, m)

-- `if test { return error }`.
abbrev pub refuse_if : Bool → CoreError → Exec (Unit {0})
refuse_if true e m = (err e, m)
refuse_if false e m = (ok tt, m)

abbrev pub or_fail : {A : Type 0} → Option A → CoreError → Exec A
or_fail none e m = (err e, m)
or_fail (some a) e m = (ok a, m)

-- The answer of a function that reads no state.
abbrev pub checked : {A : Type 0} → Result A → Exec A
checked r m = (r, m)

-- The state as it is now.
abbrev pub current : Exec State
current m = (ok m.state, m)

abbrev pub returning : {A : Type 0} → A → Exec A
returning a m = (ok a, m)

abbrev pub store : State → Exec (Unit {0})
store s m = (ok tt, record m { state = s })

abbrev from_allocator : Result ℕ × State → Exec ℕ
from_allocator (r, s) m = (r, record m { state = s })

-- An allocator of the state.
abbrev pub allocating : (State → Result ℕ × State) → Exec ℕ
allocating allocator m = from_allocator (allocator m.state) m

abbrev pub Outcome : Type 0
Outcome = Reply × Option Event

abbrev pub announce : Reply → EventKind → Payload → Exec Outcome
announce reply kind payload m =
    (ok (reply, some (record { revision = 0; kind = kind; payload = payload })), m)

abbrev pub quietly : Reply → Exec Outcome
quietly reply m = (ok (reply, none), m)

-- A change of every frontend's focus.
unfoldable pub map_frontends :
    (FrontendState → FrontendState) → Dict ℕ FrontendState → Dict ℕ FrontendState
map_frontends f [] = []
map_frontends f ((id, frontend) ∷ rest) = (id, f frontend) ∷ map_frontends f rest

abbrev pub refocus : (FrontendState → FrontendState) → Exec (Unit {0})
refocus f m = (ok tt, record m { frontends = map_frontends f m.frontends })

-- The pane that takes the focus in a window; 0 in an empty one.
abbrev pub first_pane_of : Option LayoutNode → ℕ
first_pane_of none = 0
first_pane_of (some layout) = first_pane layout

-- core.go, `initialFrontendState`: the first window of the first workspace that has one.
abbrev focus_in_window : ℕ → ℕ → Window → ℕ → FrontendState
focus_in_window id workspace_id window window_id = record {
  id = id;
  workspace_id = workspace_id;
  window_id = window_id;
  pane_id = first_pane_of window.layout;
}

unfoldable pub first_focus : State → ℕ → List ℕ → FrontendState → FrontendState
first_focus s id [] otherwise = otherwise
first_focus s id (w ∷ ws) otherwise =
    let rest = first_focus s id ws otherwise in
    elim (get_or w zero_workspace s.workspaces).window_ids [
      | [] ↦ rest
      | window_id ∷ _ ↦ focus_in_window id w (get_or window_id zero_window s.windows) window_id
    ]

abbrev first_workspace : List ℕ → ℕ
first_workspace [] = 0
first_workspace (w ∷ ws) = w

-- stash.go, `firstWorkspaceID`.
unfoldable pub first_workspace_id : State → ℕ
first_workspace_id s = first_workspace s.workspace_order

unfoldable pub initial_frontend_state : State → ℕ → FrontendState
unfolding first_focus first_workspace_id
initial_frontend_state s id =
    first_focus s id s.workspace_order
      (record { id = id; workspace_id = first_workspace_id s; window_id = 0; pane_id = 0 })

-- The window's id is read off the window in the source's loops over the frontends.
abbrev pub reset_if : State → (FrontendState → Bool) → FrontendState → FrontendState
reset_if s test frontend = if test frontend then initial_frontend_state s frontend.id else frontend
