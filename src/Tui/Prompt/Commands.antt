-- ===== src/Tui/Prompt/Commands.antt =====
-- prompt.go, `splitPromptCommands`: what the commands of a list are like.
use project_ariadne.Base.{
  ℕ, ◌≡◌, refl, ap, subst, Bool, true, false, not, ◌&&◌, ◌||◌, List, [], ◌∷◌, ◌++◌, ◌==◌, nat_eq,
  if◌then◌else◌, All, All-snoc,
}
use project_ariadne.Tui.Prompt.{
  Text, Split, fresh_split, Parsed, parsed, rejected, ParseError, parse_prompt_command,
  flush_command, append_command, split_rune, split_line, finish_split, split_prompt_commands,
  without_colon, trim_space, semicolon, single_quote, double_quote, quote_after, backslash,
}

abbrev pub is_accepted : {A : Type 0} → Parsed A → Bool
is_accepted (parsed a) = true
is_accepted (rejected e) = false

abbrev pub is_nonempty : Text → Bool
is_nonempty [] = false
is_nonempty (c ∷ cs) = true

-- A command that is not empty and that `parsePromptCommand` accepts.
abbrev pub IsCommand : Text → Type 0
IsCommand command =
    (is_nonempty command ≡ true) × (is_accepted (parse_prompt_command command) ≡ true)

-- A result, if it is one, has a property.
abbrev Accepts : {A : Type 0} → (A → Type 0) → Parsed A → Type 0
Accepts P (parsed a) = P a
Accepts P (rejected e) = Unit

flush_command-IsCommand : (current : Text) → Accepts IsCommand (flush_command current)
unfolding flush_command
flush_command-IsCommand current = trimmed (trim_space (without_colon (trim_space current)))
  where
    answered :
        (c : ℕ) (cs : Text) (r : Parsed (List Text))
        → parse_prompt_command (c ∷ cs) ≡ r
        → Accepts IsCommand (elim r [ parsed fields ↦ parsed (c ∷ cs) | rejected e ↦ rejected e ])
    answered c cs (parsed fields) e = (refl, ap is_accepted e)
    answered c cs (rejected x) e = tt

    trimmed :
        (text : Text)
        → Accepts IsCommand (elim text [
          | [] ↦ rejected ParseError.empty_command
          | c ∷ cs ↦ elim (parse_prompt_command (c ∷ cs)) [
            | parsed fields ↦ parsed (c ∷ cs)
            | rejected e ↦ rejected e
          ]
        ])
    trimmed [] = tt
    trimmed (c ∷ cs) = answered c cs (parse_prompt_command (c ∷ cs)) refl

abbrev AreCommands : Split → Type 0
AreCommands s = All IsCommand s.commands

append_command-AreCommands :
    (s : Split) (r : Parsed Text)
    → AreCommands s
    → Accepts IsCommand r
    → Accepts AreCommands (append_command s r)
append_command-AreCommands s (parsed command) h k = All-snoc IsCommand s.commands command h k
append_command-AreCommands s (rejected e) h k = tt

Accepts-if :
    {A : Type 0} (P : A → Type 0) (b : Bool) (x y : Parsed A)
    → Accepts P x
    → Accepts P y
    → Accepts P (if b then x else y)
Accepts-if P true x y h k = h
Accepts-if P false x y h k = k

Accepts-then :
    {A B : Type 0} (P : A → Type 0) (Q : B → Type 0) (r : Parsed A) (next : A → Parsed B)
    → Accepts P r
    → ((a : A) → P a → Accepts Q (next a))
    → Accepts Q (elim r [ parsed a ↦ next a | rejected e ↦ rejected e ])
Accepts-then P Q (parsed a) next h k = k a h
Accepts-then P Q (rejected e) next h k = tt

split_rune-AreCommands :
    (value : ℕ) (s : Split) → AreCommands s → Accepts AreCommands (split_rune value s)
unfolding split_rune
split_rune-AreCommands value s h =
    Accepts-if AreCommands s.escaped (parsed (record written { escaped = false })) unescaped h (
      Accepts-if AreCommands (value == backslash && not (s.quote == single_quote))
        (parsed (record written { escaped = true })) unslashed h
        (Accepts-if AreCommands (value == single_quote || value == double_quote)
          (parsed (record written { quote = quote_after value s.quote })) plain h
          (Accepts-if AreCommands (value == semicolon && s.quote == 0)
            (append_command s (flush_command s.current)) (parsed written)
            (append_command-AreCommands s (flush_command s.current) h
              (flush_command-IsCommand s.current))
            h)))
  where
    written : Split
    written = record s { current = s.current ++ value ∷ [] }

    plain : Parsed Split
    plain =
        if value == semicolon && s.quote == 0
        then append_command s (flush_command s.current)
        else parsed written

    unslashed : Parsed Split
    unslashed =
        if value == single_quote || value == double_quote
        then parsed (record written { quote = quote_after value s.quote })
        else plain

    unescaped : Parsed Split
    unescaped =
        if value == backslash && not (s.quote == single_quote)
        then parsed (record written { escaped = true })
        else unslashed

split_line-AreCommands :
    (line : Text) (s : Split) → AreCommands s → Accepts AreCommands (split_line line s)
unfolding split_line
split_line-AreCommands [] s h = h
split_line-AreCommands (value ∷ line) s h =
    Accepts-then AreCommands AreCommands (split_rune value s) (split_line line)
      (split_rune-AreCommands value s h) (λ t k. split_line-AreCommands line t k)

finish_split-AreCommands : (s : Split) → AreCommands s → Accepts (All IsCommand) (finish_split s)
unfolding finish_split
finish_split-AreCommands s h =
    Accepts-if (All IsCommand) s.escaped (rejected ParseError.unfinished_escape) unescaped tt (
      Accepts-if (All IsCommand) (not (s.quote == 0)) (rejected ParseError.unterminated_quote)
        flushed tt
        (Accepts-then AreCommands (All IsCommand) (append_command s (flush_command s.current))
          (λ t. parsed t.commands)
          (append_command-AreCommands s (flush_command s.current) h
            (flush_command-IsCommand s.current))
          (λ t k. k)))
  where
    flushed : Parsed (List Text)
    flushed = elim (append_command s (flush_command s.current)) [
      | parsed done ↦ parsed done.commands
      | rejected e ↦ rejected e
    ]

    unescaped : Parsed (List Text)
    unescaped = if not (s.quote == 0) then rejected ParseError.unterminated_quote else flushed

-- Every command that `splitPromptCommands` gives is not empty, and `parsePromptCommand` accepts it:
-- `newBindingDecoder` need not look at its error.
pub split_prompt_commands-IsCommand :
    (line : Text) (commands : List Text)
    → split_prompt_commands line ≡ parsed commands
    → All IsCommand commands
unfolding split_prompt_commands
split_prompt_commands-IsCommand line commands e = subst (Accepts (All IsCommand)) e (
    Accepts-then AreCommands (All IsCommand) (split_line line fresh_split) finish_split
      (split_line-AreCommands line fresh_split tt) finish_split-AreCommands)
