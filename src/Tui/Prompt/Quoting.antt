-- ===== src/Tui/Prompt/Quoting.antt =====
-- prompt.go, `parsePromptCommand`: every list of arguments can be written as a line.
use project_ariadne.Base.{
  append_nil, append_assoc, ◌≡◌, refl, ap, sym, ◌∙◌, true, false, ◌||◌, List, [], ◌∷◌, ◌++◌, ◌==◌,
  nat_eq, if◌then◌else◌, is_space, arith, Bool-cases, inl, inr,
}
use project_ariadne.Tui.Prompt.{
  Text, PromptScan, parsed, backslash, double_quote, flush_field, scan_rune, scan_line, finish_scan,
  parse_prompt_command,
}

-- A backslash stands before a quote or a backslash.
unfoldable pub escape_runes : Text → Text
escape_runes [] = []
escape_runes (c ∷ cs) =
    let rest = escape_runes cs in
    if c == double_quote || c == backslash then backslash ∷ c ∷ rest else c ∷ rest

-- Arguments in double quotes, each behind a space.
unfoldable pub quote_fields : List Text → Text
unfolding escape_runes
quote_fields [] = []
quote_fields (field ∷ fields) =
    32 ∷ double_quote ∷ (escape_runes field ++ double_quote ∷ quote_fields fields)

-- The state within double quotes.
abbrev quoting : List Text → Text → PromptScan
quoting fields current = record {
  fields = fields;
  current = current;
  quote = double_quote;
  escaped = false;
  started = true;
}

scan_line-append :
    (xs ys : Text) (s : PromptScan) → scan_line (xs ++ ys) s ≡ scan_line ys (scan_line xs s)
unfolding scan_line
scan_line-append [] ys s = refl
scan_line-append (x ∷ xs) ys s = scan_line-append xs ys (scan_rune x s)

-- Escaped runes are read back within the quotes.
scan_line-escape_runes :
    (field : Text) (fields : List Text) (current : Text)
    → scan_line (escape_runes field) (quoting fields current) ≡ quoting fields (current ++ field)
unfolding scan_line escape_runes scan_rune
scan_line-escape_runes [] fields current = ap (quoting fields) (sym (append_nil current))
scan_line-escape_runes (c ∷ cs) fields current =
    let rest =
      scan_line-escape_runes cs fields (current ++ c ∷ [])
      ∙ ap (quoting fields) (append_assoc current (c ∷ []) cs) in
    elim (Bool-cases (c == double_quote || c == backslash)) [
      | inl special ↦ rw special rest
      | inr plain ↦ rw plain (
          let step : scan_rune c (quoting fields current) ≡ quoting fields (current ++ c ∷ []) =
            ground (arith, plain) in
          ap (scan_line (escape_runes cs)) step ∙ rest)
    ]

-- The state behind a closing quote.
abbrev closed : List Text → Text → PromptScan
closed fields current = record {
  fields = fields;
  current = current;
  quote = 0;
  escaped = false;
  started = true;
}

-- From an opening quote on.
quoted_field :
    (fields : List Text) (field line : Text)
    → scan_line (escape_runes field ++ double_quote ∷ line) (quoting fields [])
      ≡ scan_line line (closed fields field)
unfolding scan_line scan_rune
quoted_field fields field line =
    scan_line-append (escape_runes field) (double_quote ∷ line) (quoting fields [])
    ∙ ap (scan_line (double_quote ∷ line)) (scan_line-escape_runes field fields [])

finish-quote_fields :
    (fields done : List Text) (current : Text)
    → finish_scan (scan_line (quote_fields fields) (closed done current))
      ≡ parsed ((done ++ current ∷ []) ++ fields)
unfolding scan_line scan_rune quote_fields finish_scan flush_field is_space
finish-quote_fields [] done current = ap parsed (sym (append_nil (done ++ current ∷ [])))
finish-quote_fields (field ∷ fields) done current =
    ap finish_scan (quoted_field (done ++ current ∷ []) field (quote_fields fields))
    ∙ finish-quote_fields fields (done ++ current ∷ []) field
    ∙ ap parsed (append_assoc (done ++ current ∷ []) (field ∷ []) fields)

-- Whatever the arguments are, empty ones and ones with spaces, quotes and backslashes included: the
-- line that writes each in double quotes is parsed into exactly those arguments.
pub parse-quote_fields :
    (fields : List Text) → parse_prompt_command (quote_fields fields) ≡ parsed fields
unfolding parse_prompt_command scan_line scan_rune quote_fields finish_scan flush_field is_space
parse-quote_fields [] = refl
parse-quote_fields (field ∷ fields) =
    ap finish_scan (quoted_field [] field (quote_fields fields))
    ∙ finish-quote_fields fields [] field
