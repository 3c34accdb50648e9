-- ===== src/State/Restore/Listed.antt =====
-- model.go, `stateFromSnapshot`: the state holds the records of the snapshot, in their order.
use project_ariadne.Base.{
  append_nil, append_assoc, ℕ, ◌≡◌, refl, sym, subst, Bool, true, false, List, [], ◌∷◌, ◌++◌,
  Option, none, some, ◌==◌, nat_eq, ◌>>=?◌, arith, any, any-append, is_some, has, get-put, get,
}
use project_ariadne.State.Defs.{State}
use project_ariadne.State.Snapshots.{Snapshot, snapshot}
use project_ariadne.State.Listing.{Listing, Listing-add, Listing-empty, Listing-read}
use project_ariadne.Model.Pane.{Pane, zero_pane}
use project_ariadne.Model.Tool.{ToolInstance}
use project_ariadne.Model.Label.{Label}
use project_ariadne.Model.Attention.{Attention}
use project_ariadne.Model.Places.{Workspace, Window, StashedWindow, zero_workspace, zero_window}
use project_ariadne.Layout.Hint.{StashedPane}
use project_ariadne.State.Hierarchy.{validate_hierarchy}
use project_ariadne.State.Restore.{
  if_holds, refuse_if, references_hold, counters_exceed, state_from_snapshot, clone_snapshot,
  empty_from, add_all, add_tool, add_workspace, add_stashed_window, add_stashed_pane, add_window,
  add_pane, add_label, add_attention, noting, terminal_id_of,
}

-- A result, if there is one, has a property.
abbrev pub Yields : {S : Type 0} → (S → Type 0) → Option S → Type 0
Yields P r = (s : _) → r ≡ some s → P s

pub Yields-bind :
    {S T : Type 0} (P : S → Type 0) (Q : T → Type 0) (r : Option S) (next : S → Option T)
    → Yields P r
    → ((s : S) → P s → Yields Q (next s))
    → Yields Q (r >>=? next)
Yields-bind P Q none next h k s e = ground arith
Yields-bind P Q (some t) next h k s e = k t (h t refl) s e

pub Yields-some : {S : Type 0} (P : S → Type 0) (s : S) → P s → Yields P (some s)
Yields-some P s h s' e = subst P (ground (arith, e)) h

if_holds-Yields : (P : State → Type 0) (b : Bool) (s : State) → P s → Yields P (if_holds b s)
if_holds-Yields P true s h = Yields-some P s h
if_holds-Yields P false s h = λ s' e. ground arith

-- A loop, by what holds after the elements that are done.
module _ {A S : Type 0} (add : A → S → Option S) (P : List A → S → Type 0) where
  pub add_all-Yields :
      ((done : List A) (a : A) (s : S) → P done s → Yields (P (done ++ a ∷ [])) (add a s))
      → (as' done : List A) (s : S) → P done s
      → Yields (P (done ++ as')) (add_all add as' s)
  unfolding add_all
  add_all-Yields step [] done s h s' e =
      subst (P (done ++ [])) (ground (arith, e)) (subst (λ xs. P xs s) (sym (append_nil done)) h)
  add_all-Yields step (a ∷ as') done s h s' e =
      subst (λ xs. P xs s') (append_assoc done (a ∷ []) as')
        (Yields-bind (P (done ++ a ∷ [])) (P ((done ++ a ∷ []) ++ as')) (add a s) (add_all add as')
          (step done a s h) (λ t h'. add_all-Yields step as' (done ++ a ∷ []) t h') s' e)

-- What the loops have built, from the records that are done.
abbrev pub Built : List Workspace → List Window → List Pane → List StashedWindow → State → Type 0
Built ws wins ps sw s =
    Listing (λ (w : Workspace). w.id) s.workspaces s.workspace_order ws
    × Listing (λ (w : Window). w.id) s.windows s.window_order wins
    × Listing (λ (p : Pane). p.id) s.panes s.pane_order ps
    × ((k : ℕ) → has k s.stashed_windows ≡ any (λ (w : StashedWindow). w.window_id == k) sw)

refuse_if-Yields :
    (P : State → Type 0) (b : Bool) (s : State) → (b ≡ false → P s) → Yields P (refuse_if b s)
refuse_if-Yields P true s h = λ s' e. ground arith
refuse_if-Yields P false s h = Yields-some P s (h refl)

Yields-beside :
    (P : State → Type 0) (ids : List ℕ) (r : Option State)
    → Yields P r
    → Yields (λ (y : State × List ℕ). P y.0) (r >>=? λ s. some (s, ids))
Yields-beside P ids r h =
    Yields-bind P (λ (y : State × List ℕ). P y.0) r (λ s. some (s, ids)) h
      (λ s h'. Yields-some (λ (y : State × List ℕ). P y.0) (s, ids) h')

module _ (ws : List Workspace) (wins : List Window) (ps : List Pane) (sw : List StashedWindow) where
  add_tool-Built :
      (t : ToolInstance) (s : State)
      → Built ws wins ps sw s
      → Yields (Built ws wins ps sw) (add_tool t s)
  unfolding add_tool
  add_tool-Built t s h = refuse_if-Yields (Built ws wins ps sw) _ _ (λ _. h)

  add_stashed_pane-Built :
      (p : StashedPane) (s : State)
      → Built ws wins ps sw s
      → Yields (Built ws wins ps sw) (add_stashed_pane p s)
  unfolding add_stashed_pane
  add_stashed_pane-Built p s h = refuse_if-Yields (Built ws wins ps sw) _ _ (λ _. h)

  add_label-Built :
      (l : Label) (s : State) → Built ws wins ps sw s → Yields (Built ws wins ps sw) (add_label l s)
  unfolding add_label
  add_label-Built l s h = refuse_if-Yields (Built ws wins ps sw) _ _ (λ _. h)

  add_attention-Built :
      (a : Attention) (s : State)
      → Built ws wins ps sw s
      → Yields (Built ws wins ps sw) (add_attention a s)
  unfolding add_attention
  add_attention-Built a s h = refuse_if-Yields (Built ws wins ps sw) _ _ (λ _. h)

  add_workspace-Built :
      (w : Workspace) (s : State)
      → Built ws wins ps sw s
      → Yields (Built (ws ++ w ∷ []) wins ps sw) (add_workspace w s)
  unfolding add_workspace
  add_workspace-Built w s h = refuse_if-Yields (Built (ws ++ w ∷ []) wins ps sw) _ _ (λ passed. (
    Listing-add (λ (w : Workspace). w.id) w s.workspaces s.workspace_order ws
        (ground (arith, passed)) h.0,
    h.1,
    h.2,
    h.3,
  ))

  add_window-Built :
      (w : Window) (s : State)
      → Built ws wins ps sw s
      → Yields (Built ws (wins ++ w ∷ []) ps sw) (add_window w s)
  unfolding add_window
  add_window-Built w s h = refuse_if-Yields (Built ws (wins ++ w ∷ []) ps sw) _ _ (λ passed. (
    h.0,
    Listing-add (λ (w : Window). w.id) w s.windows s.window_order wins (ground (arith, passed)) h.1,
    h.2,
    h.3,
  ))

  add_stashed_window-Built :
      (w : StashedWindow) (s : State)
      → Built ws wins ps sw s
      → Yields (Built ws wins ps (sw ++ w ∷ [])) (add_stashed_window w s)
  unfolding add_stashed_window any
  add_stashed_window-Built w s h = refuse_if-Yields (Built ws wins ps (sw ++ w ∷ [])) _ _ (λ passed.
      (
        h.0,
        h.1,
        h.2,
        λ k. ground (
          arith,
          get-put w.window_id k w s.stashed_windows,
          any-append (λ (w : StashedWindow). w.window_id == k) sw (w ∷ []),
          h.3 k,
        ),
      ))

  add_pane-Built :
      (p : Pane) (x : State × List ℕ)
      → Built ws wins ps sw x.0
      → Yields (λ (y : State × List ℕ). Built ws wins (ps ++ p ∷ []) sw y.0) (add_pane p x)
  unfolding add_pane
  add_pane-Built p (s, ids) h =
      Yields-beside (Built ws wins (ps ++ p ∷ []) sw) (noting ids (terminal_id_of p.terminal)) _ (
        refuse_if-Yields (Built ws wins (ps ++ p ∷ []) sw) _ _ (λ passed. (
          h.0,
          h.1,
          Listing-add (λ (p : Pane). p.id) p s.panes s.pane_order ps (ground (arith, passed)) h.2,
          h.3,
        )))

empty-Built : (snap : Snapshot) → Built [] [] [] [] (empty_from snap)
unfolding any get
empty-Built snap = (
  Listing-empty (λ (w : Workspace). w.id),
  Listing-empty (λ (w : Window). w.id),
  Listing-empty (λ (p : Pane). p.id),
  λ k. refl,
)

-- At the end the hierarchy has been checked, too.
abbrev pub BuiltWhole : Snapshot → State → Type 0
BuiltWhole snap s =
    Built snap.workspaces snap.windows snap.panes snap.stashed_windows s
    × (is_some (validate_hierarchy s) ≡ true)

checked :
    (snap : Snapshot) (s : State)
    → Built snap.workspaces snap.windows snap.panes snap.stashed_windows s
    → Yields (BuiltWhole snap) (validate_hierarchy s >>=? λ _. if_holds (counters_exceed s) s)
checked snap s h =
    Yields-bind (λ u. is_some (validate_hierarchy s) ≡ true) (BuiltWhole snap)
      (validate_hierarchy s) _ (λ u e. ground (arith, e))
      (λ u p. if_holds-Yields (BuiltWhole snap) (counters_exceed s) s (h, p))

pub state_from_snapshot-Built :
    (snap : Snapshot) → Yields (BuiltWhole snap) (state_from_snapshot snap)
unfolding state_from_snapshot
state_from_snapshot-Built snap =
    let ws = snap.workspaces in
    let wins = snap.windows in
    let ps = snap.panes in
    let sw = snap.stashed_windows in
    let all_built = Built ws wins ps sw in
    Yields-bind (Built ws wins [] sw) (BuiltWhole snap) _ _
      (Yields-bind (Built ws [] [] sw) (Built ws wins [] sw) _ _
        (Yields-bind (Built ws [] [] sw) (Built ws [] [] sw) _ _
          (Yields-bind (Built ws [] [] []) (Built ws [] [] sw) _ _
            (Yields-bind (Built [] [] [] []) (Built ws [] [] []) _ _
              (add_all-Yields add_tool (λ _. Built [] [] [] []) (λ done. add_tool-Built [] [] [] [])
                snap.tool_instances [] (empty_from snap) (empty-Built snap))
              (add_all-Yields add_workspace (λ done. Built done [] [] [])
                (λ done. add_workspace-Built done [] [] []) ws []))
            (add_all-Yields add_stashed_window (λ done. Built ws [] [] done)
              (λ done. add_stashed_window-Built ws [] [] done) sw []))
          (add_all-Yields add_stashed_pane (λ done. Built ws [] [] sw)
            (λ done. add_stashed_pane-Built ws [] [] sw) snap.stashed_panes []))
        (add_all-Yields add_window (λ done. Built ws done [] sw)
          (λ done. add_window-Built ws done [] sw) wins []))
      (λ s h.
        Yields-bind (λ (y : State × List ℕ). all_built y.0) (BuiltWhole snap) _ _
          (add_all-Yields add_pane (λ done (y : State × List ℕ). Built ws wins done sw y.0)
            (λ done. add_pane-Built ws wins done sw) ps [] (s, []) h)
          (λ (y : State × List ℕ) h'.
            Yields-bind all_built (BuiltWhole snap) _ _
              (Yields-bind all_built all_built _ _
                (Yields-bind all_built all_built _ _
                  (if_holds-Yields all_built (references_hold y.0) y.0 h')
                  (add_all-Yields add_label (λ done. all_built)
                    (λ done. add_label-Built ws wins ps sw) snap.labels []))
                (add_all-Yields add_attention (λ done. all_built)
                  (λ done. add_attention-Built ws wins ps sw) snap.attentions []))
              (checked snap)))

-- A snapshot that `CloneSnapshot` accepts comes back with its workspaces, windows and panes, in
-- their order.
pub clone_snapshot-records :
    (snap snap' : Snapshot)
    → clone_snapshot snap ≡ some snap'
    → (snap'.workspaces ≡ snap.workspaces)
      × (snap'.windows ≡ snap.windows)
      × (snap'.panes ≡ snap.panes)
unfolding clone_snapshot snapshot
clone_snapshot-records snap snap' e =
    Yields-bind (BuiltWhole snap)
      (λ (t : Snapshot).
        (t.workspaces ≡ snap.workspaces) × (t.windows ≡ snap.windows) × (t.panes ≡ snap.panes))
      (state_from_snapshot snap) (λ s. some (snapshot s)) (state_from_snapshot-Built snap)
      (λ s h.
        Yields-some
          (λ (t : Snapshot).
            (t.workspaces ≡ snap.workspaces) × (t.windows ≡ snap.windows) × (t.panes ≡ snap.panes))
          (snapshot s)
          (
            Listing-read (λ (w : Workspace). w.id) zero_workspace s.workspaces s.workspace_order
                snap.workspaces h.0.0,
            Listing-read (λ (w : Window). w.id) zero_window s.windows s.window_order snap.windows
                h.0.1,
            Listing-read (λ (p : Pane). p.id) zero_pane s.panes s.pane_order snap.panes h.0.2,
          ))
      snap' e
