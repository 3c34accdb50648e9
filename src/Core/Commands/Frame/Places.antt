-- ===== src/Core/Commands/Frame/Places.antt =====
-- The frame of the commands on workspaces, windows and panes.
use project_ariadne.Base.{
  nat_eq, none, some, get, get_or, Option, ℕ, String, ◌≡◌, refl, List, arith,
}
use project_ariadne.Layout.Tree.{SplitDirection}
use project_ariadne.Model.Terminal.{LaunchSpec}
use project_ariadne.Model.Tool.{ToolDescriptor}
use project_ariadne.Model.Places.{Window, zero_window}
use project_ariadne.Layout.Hint.{StashedPane}
use project_ariadne.Model.Pane.{Pane, PaneSpec}
use project_ariadne.State.Defs.{
  State, allocate_workspace_id, allocate_window_id, allocate_pane_id, allocate_split_id, allocate,
}
use project_ariadne.Core.Events.{Event, Reply}
use project_ariadne.Core.Labels.{remove_target_labels}
use project_ariadne.Core.Attentions.{without_attentions, removed_attentions}
use project_ariadne.Core.Tools.{register_tool}
use project_ariadne.Core.Workspaces.{create_workspace, rename_workspace, delete_workspace}
use project_ariadne.Core.Windows.{
  create_window, rename_window, delete_window, set_focus, select_window,
}
use project_ariadne.Core.Panes.{
  create_pane, split_pane, create_transient_pane, resize_split, split_id_for_insertion, with_pane,
}
use project_ariadne.Core.Closing.{
  close_pane, close_unplaced, unplace, release_tool, dismantle, on_pane, forget_pane,
}
use project_ariadne.Core.Moves.{move_pane, move_checks, move_checked, move_within, move_across}
use project_ariadne.Core.Stash.{
  stash_pane, restore_pane, split_id_to_restore, restore_checks, put_back,
}
use project_ariadne.Core.Destinations.{RestorePane, Destination}
use project_ariadne.Core.WindowStash.{RestoreWindow, stash_window, restore_window}
use project_ariadne.Model.Errors.{Result, ok, err, not_found}
use project_ariadne.Core.Machine.{checked, Machine, continue, or_fail, ◌>>=◌}
use project_ariadne.Core.Commands.Frame.Content.{without_attentions-SameCounters}
use project_ariadne.Core.Commands.Frame.{Framed, IsFramed, Reads, Framed-bind, SameCounters}

pub create_workspace-Framed : (name : String) → Framed (create_workspace name)
unfolding create_workspace allocate_workspace_id allocate
create_workspace-Framed name m = ground arith

pub rename_workspace-Framed : (id : ℕ) (name : String) → Framed (rename_workspace id name)
unfolding rename_workspace
rename_workspace-Framed id name m = ground arith

pub delete_workspace-Framed : (id : ℕ) → Framed (delete_workspace id)
unfolding delete_workspace remove_target_labels
delete_workspace-Framed id m = ground arith

pub create_window-Framed : (id : ℕ) (name : String) → Framed (create_window id name)
unfolding create_window allocate_window_id allocate
create_window-Framed id name m = ground arith

pub rename_window-Framed : (id : ℕ) (name : String) → Framed (rename_window id name)
unfolding rename_window
rename_window-Framed id name m = ground arith

pub delete_window-Framed : (id : ℕ) → Framed (delete_window id)
unfolding delete_window remove_target_labels
delete_window-Framed id m = ground arith

pub set_focus-Framed : (id pane : ℕ) → Framed (set_focus id pane)
unfolding set_focus
set_focus-Framed id pane m = ground arith

pub select_window-Framed : (id window : ℕ) → Framed (select_window id window)
unfolding select_window
select_window-Framed id window m = ground arith

pub create_pane-Framed : (id : ℕ) (spec : PaneSpec) → Framed (create_pane id spec)
unfolding create_pane allocate_pane_id allocate with_pane register_tool
create_pane-Framed id spec m = ground arith

pub split_pane-Framed :
    (id : ℕ) (d : SplitDirection) (spec : PaneSpec) → Framed (split_pane id d spec)
unfolding split_pane allocate_pane_id allocate with_pane register_tool split_id_for_insertion
    allocate_split_id
split_pane-Framed id d spec m = ground arith

pub create_transient_pane-Framed :
    (id : ℕ) (launch : LaunchSpec) → Framed (create_transient_pane id launch)
unfolding create_transient_pane allocate_pane_id allocate
create_transient_pane-Framed id launch m = ground arith

pub resize_split-Framed : (id : ℕ) (ws : List ℕ) → Framed (resize_split id ws)
unfolding resize_split
resize_split-Framed id ws m = ground arith

pub move_within-Framed :
    (p : Pane) (w : Window) (t : ℕ) (d : SplitDirection) → Framed (move_within p w t d)
unfolding move_within split_id_for_insertion allocate_split_id allocate
move_within-Framed p w t d m = ground arith

pub move_across-Framed :
    (p : Pane) (w w' : Window) (t : ℕ) (d : SplitDirection) → Framed (move_across p w w' t d)
unfolding move_across split_id_for_insertion allocate_split_id allocate
move_across-Framed p w w' t d m = ground arith

pub move_checks-Reads : (id w t : ℕ) (d : SplitDirection) → Reads (move_checks id w t d)
unfolding move_checks
move_checks-Reads id w t d m = ground arith

move_checked-Framed :
    (t : ℕ) (d : SplitDirection) (x : Pane × Window × Window) → Framed (move_checked t d x)
move_checked-Framed t d (p, source, destination) m =
    ground (arith, move_within-Framed p source t d m, move_across-Framed p source destination t d m)

pub move_pane-Framed : (id w t : ℕ) (d : SplitDirection) → Framed (move_pane id w t d)
unfolding move_pane
move_pane-Framed id w t d =
    Framed-bind (move_checks id w t d) (move_checked t d) (move_checks-Reads id w t d)
      (move_checked-Framed t d)

pub stash_pane-Framed : (id : ℕ) → Framed (stash_pane id)
unfolding stash_pane
stash_pane-Framed id m = ground arith

restore_checks-Reads : (c : RestorePane) → Reads (restore_checks c)
unfolding restore_checks
restore_checks-Reads c m = ground arith

put_back-Framed : (c : RestorePane) (x : Pane × StashedPane × Destination) → Framed (put_back c x)
unfolding put_back split_id_to_restore allocate_split_id allocate
put_back-Framed c (p, hint, d) m = ground arith

pub restore_pane-Framed : (c : RestorePane) → Framed (restore_pane c)
unfolding restore_pane
restore_pane-Framed c =
    Framed-bind (restore_checks c) (put_back c) (restore_checks-Reads c) (put_back-Framed c)

pub stash_window-Framed : (id : ℕ) → Framed (stash_window id)
unfolding stash_window
stash_window-Framed id m = ground arith

pub restore_window-Framed : (c : RestoreWindow) → Framed (restore_window c)
unfolding restore_window
restore_window-Framed c m = ground arith

release_tool-SameCounters :
    (s : State) (tool : Option ToolDescriptor) → SameCounters s (release_tool s tool).0
unfolding release_tool
release_tool-SameCounters s tool = ground arith

dismantle-SameCounters : (s : State) (p : Pane) → SameCounters s (dismantle s p).state
unfolding dismantle
dismantle-SameCounters s p =
    let cleared = removed_attentions (on_pane p.id) s in
    let s' = forget_pane s p.id in
    ground (
      arith,
      without_attentions-SameCounters cleared s',
      release_tool-SameCounters (without_attentions cleared s') p.tool,
    )

unplace-SameCounters :
    (s s' : State) (p : Pane) (w w' : Window) → unplace s p w ≡ ok (s', w') → SameCounters s s'
unfolding unplace
unplace-SameCounters s s' p w w' e = ground arith

close_unplaced-Framed :
    (p : Pane) (x : State × Window) (m : Machine)
    → SameCounters m.state x.0
    → IsFramed m (close_unplaced p x m)
unfolding close_unplaced
close_unplaced-Framed p (s, window) m h = ground (arith, dismantle-SameCounters s p)

close_placed-Framed :
    (p : Pane) (w : Window) (m : Machine) (r : Result (State × Window))
    → unplace m.state p w ≡ r
    → IsFramed m (continue (r, m) (close_unplaced p))
close_placed-Framed p w m (err x) e = ground arith
close_placed-Framed p w m (ok (s, window)) e =
    close_unplaced-Framed p (s, window) m (unplace-SameCounters m.state s p w window e)

close_found-Framed :
    (m : Machine) (r : Option Pane)
    → IsFramed m (
        continue (or_fail r not_found m) (λ p.
          checked (unplace m.state p (get_or p.window_id zero_window m.state.windows))
          >>= close_unplaced p))
close_found-Framed m none = ground arith
close_found-Framed m (some p) =
    let w = get_or p.window_id zero_window m.state.windows in
    close_placed-Framed p w m (unplace m.state p w) refl

pub close_pane-Framed : (id : ℕ) → Framed (close_pane id)
unfolding close_pane
close_pane-Framed id m = close_found-Framed m (get id m.state.panes)

pub set_focus-quiet :
    (id pane : ℕ) (m m' : Machine) (reply : Reply) (event : Option Event)
    → set_focus id pane m ≡ (ok (reply, event), m')
    → event ≡ none
unfolding set_focus
set_focus-quiet id pane m m' reply event e = ground arith

pub select_window-quiet :
    (id window : ℕ) (m m' : Machine) (reply : Reply) (event : Option Event)
    → select_window id window m ≡ (ok (reply, event), m')
    → event ≡ none
unfolding select_window
select_window-quiet id window m m' reply event e = ground arith
