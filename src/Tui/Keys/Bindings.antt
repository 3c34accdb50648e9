-- ===== src/Tui/Keys/Bindings.antt =====
-- input.go, `newBindingDecoder`: the decoder of the configured keybindings, or none at an error, whose
-- text depends on the order in which Go visits a map. Which key names there are is left open: what
-- holds here holds for every reading of them.
use project_ariadne.Base.{
  Bool, not, ◌&&◌, ◌||◌, Option, none, some, List, [], ◌∷◌, ◌++◌, ◌==◌, nat_eq, if◌then◌else◌, Dict,
  get, put, has, keys, contains, all, length,
}
use project_ariadne.Tui.Prompt.{
  Text, parsed, rejected, parse_prompt_command, split_prompt_commands, trim_space, trim_start,
  trim_end,
}
use project_ariadne.Tui.Keys.{Bytes, InputDecoder, is_prefix, escape, bytes_eq}

unfoldable pub prefixes_after : Bytes → Bytes → List Bytes
prefixes_after front [] = []
prefixes_after front (b ∷ bs) = front ∷ prefixes_after (front ++ b ∷ []) bs

-- `sequence[:size]` for each size from 1 to below the length.
abbrev pub proper_prefixes : Bytes → List Bytes
proper_prefixes [] = []
proper_prefixes (b ∷ bs) = prefixes_after (b ∷ []) bs

abbrev pub fields_of : Text → List Text
fields_of command = elim (parse_prompt_command command) [ parsed fields ↦ fields | rejected e ↦ [] ]

abbrev pub name_of : List Text → Text
name_of [] = []
name_of (name ∷ fields) = name

module _ (parse_key_sequence : Text → Option Bytes) (valid : Text → Bool) where
  abbrev pub is_known : Bool → Text → Bool
  is_known timeout command = not (
      not (valid (name_of (fields_of command))) || timeout && not (length (fields_of command) == 1))

  -- The body of the loop over the bindings.
  unfoldable pub add_binding : Text → Text → InputDecoder → Option InputDecoder
  unfolding get put all trim_start trim_end split_prompt_commands parse_prompt_command
      prefixes_after
  add_binding specification command_text d = elim (parse_key_sequence specification) [
    | none ↦ none
    | some sequence ↦ elim (trim_space command_text) [
      | [] ↦ some d
      | c ∷ cs ↦ elim (split_prompt_commands command_text) [
        | rejected e ↦ none
        | parsed commands ↦
            if not (all (is_known d.escape_timeout) commands) || has sequence d.bindings
            then none
            else some (record d {
              bindings = put sequence commands d.bindings;
              prefixes = d.prefixes ++ proper_prefixes sequence;
            })
      ]
    ]
  ]

  unfoldable pub add_bindings : Dict Text Text → InputDecoder → Option InputDecoder
  unfolding add_binding
  add_bindings [] d = some d
  add_bindings ((specification, command_text) ∷ bindings) d =
      elim (add_binding specification command_text d) [
        | none ↦ none
        | some next ↦ add_bindings bindings next
      ]

-- The key sequence is not the beginning of another one; a lone escape may be, where a timeout decides.
abbrev pub is_unambiguous : InputDecoder → Bytes → Bool
is_unambiguous d sequence = not (is_prefix d sequence) || d.escape_timeout && sequence == escape

abbrev pub empty_decoder : Bool → InputDecoder
empty_decoder timeout = record { bindings = []; prefixes = []; escape_timeout = timeout }

unfoldable pub new_binding_decoder :
    (Text → Option Bytes) → (Text → Bool) → Dict Text Text → Bool → Option InputDecoder
unfolding add_bindings all keys contains
new_binding_decoder parse_key_sequence valid bindings timeout =
    elim (add_bindings parse_key_sequence valid bindings (empty_decoder timeout)) [
      | none ↦ none
      | some d ↦ if all (is_unambiguous d) (keys d.bindings) then some d else none
    ]
