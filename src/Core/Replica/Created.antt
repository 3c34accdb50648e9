-- ===== src/Core/Replica/Created.antt =====
-- apply_event.go, `ApplyEvent` at a `WindowCreatedEvent`, which carries only the window.
use project_ariadne.Base.{
  ℕ, ◌≡◌, true, none, List, [], ◌∷◌, ◌++◌, map, contains, nat_eq, arith, beq_self,
}
use project_ariadne.Model.Places.{Window}
use project_ariadne.State.Snapshots.{Snapshot}
use project_ariadne.State.Restore.Unlisted.{is_unlisted, is_unstashed, unlisted_window-invalid}
use project_ariadne.Core.Events.{EventKind, window_created_event}
use project_ariadne.Core.Replica.{apply_event, apply_payload, accept_next, bump}

last_contained :
    (ws : List Window) (w : Window)
    → contains w.id (map (λ (w : Window). w.id) (ws ++ w ∷ [])) ≡ true
unfolding contains
last_contained [] w = ground (arith, beq_self w.id)
last_contained (v ∷ ws) w = ground (arith, last_contained ws w)

-- Applying the creation of a window fails, whatever the snapshot and the revision, if no workspace
-- of the snapshot lists the new window's ID and no stash entry has it.
pub created_window_refused :
    (snap : Snapshot) (revision : ℕ) (kind : EventKind) (w : Window)
    → is_unlisted w.id snap.workspaces ≡ true
    → is_unstashed w.id snap.stashed_windows ≡ true
    → apply_event snap
        (record { revision = revision; kind = kind; payload = window_created_event w })
      ≡ none
unfolding apply_event apply_payload accept_next
created_window_refused snap revision kind w u t =
    let next = record snap {
      revision = revision;
      windows = snap.windows ++ w ∷ [];
      next_window_id = bump snap.next_window_id w.id;
    } in
    ground (arith, unlisted_window-invalid next w.id (last_contained snap.windows w) u t)
