-- ===== src/Examples/Prompts.antt =====
-- The theorems on the command line (tui/prompt.go) at concrete lines.
use project_ariadne.Base.{◌≡◌, refl, List, [], ◌∷◌, All, is_space}
use project_ariadne.Tui.Prompt.{
  Text, parsed, parse_prompt_command, split_prompt_commands, split_line, split_rune, finish_split,
  flush_command, trim_start, trim_end, scan_line, scan_rune, finish_scan, flush_field,
}
use project_ariadne.Tui.Prompt.Quoting.{quote_fields, parse-quote_fields}
use project_ariadne.Tui.Prompt.Commands.{IsCommand, split_prompt_commands-IsCommand}

-- The arguments `a b`, `"\` and the empty one.
abbrev arguments : List Text
arguments = (97 ∷ 32 ∷ 98 ∷ []) ∷ (34 ∷ 92 ∷ []) ∷ [] ∷ []

parse-quote_fields_example : parse_prompt_command (quote_fields arguments) ≡ parsed arguments
parse-quote_fields_example = parse-quote_fields arguments

-- The line `:a ; b ';'` and its commands `a` and `b ';'`.
abbrev two_commands : Text
two_commands = 58 ∷ 97 ∷ 32 ∷ 59 ∷ 32 ∷ 98 ∷ 32 ∷ 39 ∷ 59 ∷ 39 ∷ []

abbrev their_texts : List Text
their_texts = (97 ∷ []) ∷ (98 ∷ 32 ∷ 39 ∷ 59 ∷ 39 ∷ []) ∷ []

two_commands_split : split_prompt_commands two_commands ≡ parsed their_texts
unfolding split_prompt_commands split_line split_rune finish_split flush_command trim_start trim_end
    parse_prompt_command scan_line scan_rune finish_scan flush_field is_space
two_commands_split = refl

split_prompt_commands-IsCommand_example : All IsCommand their_texts
split_prompt_commands-IsCommand_example =
    split_prompt_commands-IsCommand two_commands their_texts two_commands_split
