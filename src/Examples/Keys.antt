-- ===== src/Examples/Keys.antt =====
-- The theorems on keybindings (tui/input.go) at a binding of two keys.
use project_ariadne.Base.{
  ◌≡◌, refl, Bool, true, false, Option, some, [], ◌∷◌, ◌++◌, Dict, get, put, all, keys, contains,
  inr, is_space, nat_eq,
}
use project_ariadne.Tui.Prompt.{
  Text, split_prompt_commands, split_line, split_rune, finish_split, flush_command, trim_start,
  trim_end, parse_prompt_command, scan_line, scan_rune, finish_scan, flush_field,
}
use project_ariadne.Tui.Keys.{
  bytes_eq, Bytes, InputDecoder, command_token, data_token, feed, feed_bytes, drain,
}
use project_ariadne.Tui.Keys.Bindings.{
  new_binding_decoder, add_bindings, add_binding, prefixes_after,
}
use project_ariadne.Tui.Keys.Strokes.{strokes, feed-append}
use project_ariadne.Tui.Keys.Whole.{IsWaiting, Spells, feed-Spells}
use project_ariadne.Tui.Keys.Pressed.{typed_binding_runs}

-- The keys `g` and `a`, and the command `x`.
abbrev sequence : Bytes
sequence = 103 ∷ 97 ∷ []

abbrev command : Text
command = 120 ∷ []

abbrev configured : Dict Text Text
configured = (sequence, command) ∷ []

-- A reading of key names as the bytes themselves.
abbrev literal_keys : Text → Option Bytes
literal_keys specification = some specification

abbrev any_command : Text → Bool
any_command name = true

abbrev decoder : InputDecoder
decoder = record {
  bindings = (sequence, command ∷ []) ∷ [];
  prefixes = (103 ∷ []) ∷ [];
  escape_timeout = false;
}

made : new_binding_decoder literal_keys any_command configured false ≡ some decoder
unfolding new_binding_decoder add_bindings add_binding prefixes_after get put all keys contains
    split_prompt_commands split_line split_rune finish_split flush_command trim_start trim_end
    parse_prompt_command scan_line scan_rune finish_scan flush_field is_space
made = refl

is_bound : get sequence decoder.bindings ≡ some (command ∷ [])
unfolding get
is_bound = refl

typed_binding_runs_example : feed decoder [] sequence ≡ (command_token (command ∷ []) ∷ [], [])
typed_binding_runs_example =
    typed_binding_runs literal_keys any_command configured false decoder 103 (97 ∷ [])
      (command ∷ []) made is_bound refl

feed-append_example :
    (strokes (feed decoder [] (98 ∷ 103 ∷ 97 ∷ [])).0
      ≡ strokes (feed decoder [] (98 ∷ 103 ∷ [])).0
        ++ strokes (feed decoder (feed decoder [] (98 ∷ 103 ∷ [])).1 (97 ∷ [])).0)
    × ((feed decoder [] (98 ∷ 103 ∷ 97 ∷ [])).1
        ≡ (feed decoder (feed decoder [] (98 ∷ 103 ∷ [])).1 (97 ∷ [])).1)
feed-append_example = feed-append decoder [] (98 ∷ 103 ∷ []) (97 ∷ [])

-- The key `g` is pending, `b` ends the sequence.
feed-Spells_example :
    (spelled : Bytes) × Spells decoder (strokes (feed decoder (103 ∷ []) (98 ∷ [])).0) spelled
    × (spelled ++ (feed decoder (103 ∷ []) (98 ∷ [])).1 ≡ 103 ∷ 98 ∷ [])
    × IsWaiting decoder (feed decoder (103 ∷ []) (98 ∷ [])).1
unfolding contains
feed-Spells_example = feed-Spells decoder (103 ∷ []) (98 ∷ []) (inr refl)

-- `b`, then the binding, then a pending `g`.
a_stream :
    feed decoder [] (98 ∷ 103 ∷ 97 ∷ 103 ∷ [])
    ≡ (data_token (98 ∷ []) ∷ command_token (command ∷ []) ∷ [], 103 ∷ [])
unfolding feed feed_bytes drain get contains
a_stream = refl
