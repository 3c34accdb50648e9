-- ===== src/Core/Labels/Setting.antt =====
-- operations.go, `setLabel` and `removeLabel`, one after the other.
use project_ariadne.Base.{
  ◌==◌, if◌then◌else◌, get-delete, ◌≡◌, none, get, get-put, get-delete, beq_self, nat_eq, string_eq,
  arith, false,
}
use project_ariadne.Model.Errors.{ok}
use project_ariadne.Model.Label.{LabelKey, Label, key_for_label, label_key_eq, LabelKey}
use project_ariadne.State.Defs.{label_target_exists}
use project_ariadne.Core.Events.{label_result}
use project_ariadne.Core.Machine.{Machine, Outcome}
use project_ariadne.Core.Labels.{set_label, remove_label}

-- If a label was set with success, setting it again succeeds, announces nothing and changes nothing.
pub set_label-again :
    (label : Label) (m m' : Machine) (outcome : Outcome)
    → set_label label m ≡ (ok outcome, m')
    → set_label label m' ≡ (ok (label_result label false, none), m')
unfolding set_label label_target_exists
set_label-again label m m' outcome e =
    let key = key_for_label label in
    ground (arith, e, get-put key key label m.state.labels, beq_self key, beq_self label.value)

-- If a label is set and then removed, both with success, no label is left under its key, and those
-- under other keys are as before the two commands.
pub remove_label-set_label :
    (label : Label) (m m' m'' : Machine) (outcome outcome' : Outcome)
    → set_label label m ≡ (ok outcome, m')
    → remove_label label.target_kind label.target_id label.source label.name m' ≡ (ok outcome', m'')
    → (key : LabelKey)
    → get key m''.state.labels
      ≡ (if key_for_label label == key then none else get key m.state.labels)
unfolding set_label remove_label
remove_label-set_label label m m' m'' outcome outcome' e e' key =
    let own = key_for_label label in
    ground (
      arith,
      e,
      e',
      get-put own own label m.state.labels,
      get-put own key label m.state.labels,
      get-delete own key m'.state.labels,
      beq_self own,
    )
