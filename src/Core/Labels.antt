-- ===== src/Core/Labels.antt =====
-- operations.go: the commands on labels.
pub mod Setting
use project_ariadne.Base.{
  ℕ, String, Bool, true, false, not, ◌&&◌, ◌||◌, Option, none, some, List, [], ◌∷◌, ◌==◌, nat_eq,
  string_eq, Dict, get, put, delete, values, if◌then◌else◌, select, sort,
}
use project_ariadne.Model.Errors.{invalid_argument}
use project_ariadne.Model.Label.{
  Label, LabelKey, key_for_label, label_key_eq, valid_label, valid_source, label_before,
}
use project_ariadne.State.Defs.{State, label_target_exists}
use project_ariadne.Core.Events.{
  label_set, label_removed, label_source_cleared, label_event, labels_event, label_result,
  remove_labels_result,
}
use project_ariadne.Core.Machine.{
  Exec, Outcome, ◌>>=◌, ◌>>◌, refuse_if, current, store, announce, quietly,
}

abbrev same_value : Label → Option Label → Bool
same_value label none = false
same_value label (some existing) = existing.value == label.value

unfoldable pub set_label : Label → Exec Outcome
set_label label = do
  s ← current
  refuse_if
      (not (valid_label label) || not (label_target_exists s label.target_kind label.target_id))
      invalid_argument
  if same_value label (get (key_for_label label) s.labels)
      then quietly (label_result label false)
      else do
        store (record s { labels = put (key_for_label label) label s.labels })
        announce (label_result label true) label_set (label_event label)

-- Only the identity is given.
abbrev pub probe_label : String → ℕ → String → String → Label
probe_label kind id source name = record {
  target_kind = kind;
  target_id = id;
  source = source;
  name = name;
  value = "";
}

abbrev remove_found : State → Label → Option Label → Exec Outcome
remove_found s probe none = quietly (label_result probe false)
remove_found s probe (some label) = do
  store (record s { labels = delete (key_for_label probe) s.labels })
  announce (label_result label true) label_removed (label_event label)

unfoldable pub remove_label : String → ℕ → String → String → Exec Outcome
remove_label kind id source name = do
  let probe = probe_label kind id source name
  s ← current
  refuse_if (not (valid_label probe)) invalid_argument
  remove_found s probe (get (key_for_label probe) s.labels)

-- The labels that a test leaves, under their keys.
unfoldable pub labels_without : (Label → Bool) → Dict LabelKey Label → Dict LabelKey Label
labels_without gone [] = []
labels_without gone ((key, label) ∷ rest) =
    let kept = labels_without gone rest in if gone label then kept else (key, label) ∷ kept

-- The removed labels all have one source, so the snapshot's order is the order of the source here.
abbrev pub removed_labels : (Label → Bool) → State → List Label
removed_labels gone s = sort label_before (select gone (values s.labels))

abbrev announce_removed : List Label → Exec Outcome
announce_removed [] = quietly (remove_labels_result [])
announce_removed (l ∷ ls) =
    announce (remove_labels_result (l ∷ ls)) label_source_cleared (labels_event (l ∷ ls))

abbrev pub from_source : String → Label → Bool
from_source source label = label.source == source

unfoldable pub remove_labels_by_source : String → Exec Outcome
unfolding labels_without
remove_labels_by_source source = do
  s ← current
  refuse_if (not (valid_source source)) invalid_argument
  store (record s { labels = labels_without (from_source source) s.labels })
  announce_removed (removed_labels (from_source source) s)

-- `removeTargetLabels`: the state without the labels of a target, and those labels.
abbrev pub of_target : String → ℕ → Label → Bool
of_target kind id label = label.target_kind == kind && label.target_id == id

unfoldable pub remove_target_labels : String → ℕ → State → State × List Label
unfolding labels_without
remove_target_labels kind id s = (
  record s { labels = labels_without (of_target kind id) s.labels },
  removed_labels (of_target kind id) s,
)
