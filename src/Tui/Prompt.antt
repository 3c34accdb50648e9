-- ===== src/Tui/Prompt.antt =====
-- internal/frontend/tui/prompt.go: the command line and the command lists of keybindings. A line is the
-- list of its runes.
pub mod Quoting
pub mod Commands
use project_ariadne.Base.{
  ℕ, Bool, true, false, not, ◌&&◌, ◌||◌, Option, none, some, List, [], ◌∷◌, ◌++◌, ◌==◌, nat_eq,
  if◌then◌else◌, all, is_space,
}

abbrev pub Text : Type 0
Text = List ℕ

abbrev pub backslash : ℕ
backslash = 92

abbrev pub single_quote : ℕ
single_quote = 39

abbrev pub double_quote : ℕ
double_quote = 34

abbrev pub semicolon : ℕ
semicolon = 59

abbrev pub colon : ℕ
colon = 58

pub data ParseError : Type 0 where
  unfinished_escape unterminated_quote empty_command : ParseError

pub data Parsed (A : Type 0) : Type 0 where
  parsed : A → Parsed A
  rejected : ParseError → Parsed A

-- The variables of `parsePromptCommand`; a quote of 0 stands for none.
pub record PromptScan : Type 0 where
  pub fields : List Text
  pub current : Text
  pub quote : ℕ
  pub escaped : Bool
  pub started : Bool

abbrev pub fresh_scan : PromptScan
fresh_scan = record { fields = []; current = []; quote = 0; escaped = false; started = false }

-- The closure `flush`.
unfoldable pub flush_field : PromptScan → PromptScan
flush_field s =
    if s.started
    then record s { fields = s.fields ++ s.current ∷ []; current = []; started = false }
    else s

abbrev pub write_rune : ℕ → PromptScan → PromptScan
write_rune value s = record s { current = s.current ++ value ∷ []; started = true }

-- The body of the loop.
unfoldable pub scan_rune : ℕ → PromptScan → PromptScan
unfolding flush_field
scan_rune value s =
    if s.escaped
    then record s { current = s.current ++ value ∷ []; started = true; escaped = false }
    else (if value == backslash && not (s.quote == single_quote)
        then record s { escaped = true; started = true }
        else (if not (s.quote == 0)
            then (if value == s.quote
                then record s { quote = 0; started = true }
                else write_rune value s)
            else (if value == single_quote || value == double_quote
                then record s { quote = value; started = true }
                else (if is_space value then flush_field s else write_rune value s))))

unfoldable pub scan_line : Text → PromptScan → PromptScan
unfolding scan_rune
scan_line [] s = s
scan_line (value ∷ line) s = scan_line line (scan_rune value s)

-- What follows the loop.
unfoldable pub finish_scan : PromptScan → Parsed (List Text)
unfolding flush_field
finish_scan s =
    if s.escaped
    then rejected unfinished_escape
    else (if not (s.quote == 0) then rejected unterminated_quote else parsed (flush_field s).fields)

unfoldable pub parse_prompt_command : Text → Parsed (List Text)
unfolding scan_line finish_scan
parse_prompt_command line = finish_scan (scan_line line fresh_scan)

-- `strings.TrimSpace`.
unfoldable pub trim_start : Text → Text
trim_start [] = []
trim_start (c ∷ cs) = let rest = trim_start cs in if is_space c then rest else c ∷ cs

unfoldable pub trim_end : Text → Text
unfolding all
trim_end [] = []
trim_end (c ∷ cs) = let rest = trim_end cs in if all is_space (c ∷ cs) then [] else c ∷ rest

abbrev pub trim_space : Text → Text
trim_space line = trim_end (trim_start line)

-- `strings.TrimPrefix(command, ":")`.
abbrev pub without_colon : Text → Text
without_colon [] = []
without_colon (c ∷ cs) = if c == colon then cs else c ∷ cs

-- The closure `flush` of `splitPromptCommands`: the command that it appends.
unfoldable pub flush_command : Text → Parsed Text
unfolding trim_start trim_end parse_prompt_command
flush_command current = elim (trim_space (without_colon (trim_space current))) [
  | [] ↦ rejected empty_command
  | c ∷ cs ↦ elim (parse_prompt_command (c ∷ cs)) [
    | parsed fields ↦ parsed (c ∷ cs)
    | rejected e ↦ rejected e
  ]
]

-- The variables of `splitPromptCommands`.
pub record Split : Type 0 where
  pub commands : List Text
  pub current : Text
  pub quote : ℕ
  pub escaped : Bool

abbrev pub fresh_split : Split
fresh_split = record { commands = []; current = []; quote = 0; escaped = false }

abbrev pub append_command : Split → Parsed Text → Parsed Split
append_command s (parsed command) =
    parsed (record s { commands = s.commands ++ command ∷ []; current = [] })
append_command s (rejected e) = rejected e

-- The quote after a rune that opens or closes one, or stands within the other one.
abbrev pub quote_after : ℕ → ℕ → ℕ
quote_after value quote = if quote == 0 then value else (if quote == value then 0 else quote)

-- The body of the loop, which a failing `flush` leaves.
unfoldable pub split_rune : ℕ → Split → Parsed Split
unfolding flush_command
split_rune value s =
    let written : Split = record s { current = s.current ++ value ∷ [] } in
    if s.escaped
    then parsed (record written { escaped = false })
    else (if value == backslash && not (s.quote == single_quote)
        then parsed (record written { escaped = true })
        else (if value == single_quote || value == double_quote
            then parsed (record written { quote = quote_after value s.quote })
            else (if value == semicolon && s.quote == 0
                then append_command s (flush_command s.current)
                else parsed written)))

unfoldable pub split_line : Text → Split → Parsed Split
unfolding split_rune
split_line [] s = parsed s
split_line (value ∷ line) s = elim (split_rune value s) [
  | parsed next ↦ split_line line next
  | rejected e ↦ rejected e
]

-- What follows the loop.
unfoldable pub finish_split : Split → Parsed (List Text)
unfolding flush_command
finish_split s =
    if s.escaped
    then rejected unfinished_escape
    else (if not (s.quote == 0)
        then rejected unterminated_quote
        else elim (append_command s (flush_command s.current)) [
          | parsed done ↦ parsed done.commands
          | rejected e ↦ rejected e
        ])

unfoldable pub split_prompt_commands : Text → Parsed (List Text)
unfolding split_line finish_split
split_prompt_commands line = elim (split_line line fresh_split) [
  | parsed s ↦ finish_split s
  | rejected e ↦ rejected e
]
