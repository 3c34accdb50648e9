-- ===== src/Tui/Keys/Unambiguous.antt =====
-- input.go, `newBindingDecoder`: no binding hides another one.
use project_ariadne.Base.{
  ℕ, ◌≡◌, ap, sym, ◌∙◌, subst, Bool, true, false, not, ◌||◌, Option, none, some, List, [], ◌∷◌,
  ◌++◌, ◌==◌, if◌then◌else◌, Dict, get, put, has, keys, contains, all, arith, Bool-cases, inl, inr,
  get-put, append_nil, beq_self, append_assoc, contains-append,
}
use project_ariadne.Tui.Prompt.{Text, Parsed, parsed, rejected, split_prompt_commands, trim_space}
use project_ariadne.Tui.Keys.{Bytes, InputDecoder, is_prefix, bytes_eq}
use project_ariadne.Tui.Keys.Bindings.{
  prefixes_after, proper_prefixes, is_known, add_binding, add_bindings, is_unambiguous,
  empty_decoder, new_binding_decoder,
}

-- Every beginning of the key sequence of a binding, but none and all of it, is among the prefixes.
abbrev pub HasPrefixes : InputDecoder → Type 0
HasPrefixes d =
    (commands : List Text) (c b : ℕ) (front back : Bytes)
    → get (c ∷ (front ++ b ∷ back)) d.bindings ≡ some commands
    → is_prefix d (c ∷ front) ≡ true

contains-here : (x : Bytes) (xs : List Bytes) → contains x (x ∷ xs) ≡ true
unfolding contains
contains-here x xs = ap (λ b. b || contains x xs) (beq_self x)

contains-there : (a x : Bytes) (xs : List Bytes) → contains a xs ≡ true → contains a (x ∷ xs) ≡ true
unfolding contains
contains-there a x xs h = ground (arith, h)

contains-prefixes_after :
    (acc front back : Bytes) (b : ℕ)
    → contains (acc ++ front) (prefixes_after acc (front ++ b ∷ back)) ≡ true
unfolding prefixes_after
contains-prefixes_after acc [] back b =
    subst (λ (q : Bytes). contains q (acc ∷ prefixes_after (acc ++ b ∷ []) back) ≡ true)
      (sym (append_nil acc)) (contains-here acc (prefixes_after (acc ++ b ∷ []) back))
contains-prefixes_after acc (f ∷ front) back b =
    contains-there (acc ++ f ∷ front) acc (prefixes_after (acc ++ f ∷ []) (front ++ b ∷ back)) (
      subst (λ (q : Bytes). contains q (prefixes_after (acc ++ f ∷ []) (front ++ b ∷ back)) ≡ true)
        (append_assoc acc (f ∷ []) front) (contains-prefixes_after (acc ++ f ∷ []) front back b))

abbrev bound : InputDecoder → Bytes → List Text → InputDecoder
bound d sequence commands = record d {
  bindings = put sequence commands d.bindings;
  prefixes = d.prefixes ++ proper_prefixes sequence;
}

or_left : (a b : Bool) → a ≡ true → (a || b) ≡ true
or_left a b h = ground (arith, h)

or_right : (a b : Bool) → b ≡ true → (a || b) ≡ true
or_right a b h = ground (arith, h)

bound-HasPrefixes :
    (d : InputDecoder) (sequence : Bytes) (commands : List Text)
    → HasPrefixes d
    → HasPrefixes (bound d sequence commands)
bound-HasPrefixes d sequence commands h k c b front back e =
    let key : Bytes = c ∷ (front ++ b ∷ back) in
    let olds : Bool = contains (c ∷ front) d.prefixes in
    let news : Bool = contains (c ∷ front) (proper_prefixes sequence) in
    let found : (if sequence == key then some commands else get key d.bindings) ≡ some k =
      sym (get-put sequence key commands d.bindings) ∙ e in
    contains-append (c ∷ front) d.prefixes (proper_prefixes sequence)
    ∙ elim (Bool-cases (sequence == key)) [
      | inl same ↦ or_right olds news (
          subst (λ (q : Bytes). contains (c ∷ front) (proper_prefixes q) ≡ true)
            (sym ((bytes_eq.beq_iff sequence key).0 same))
            (contains-prefixes_after (c ∷ []) front back b))
      | inr other ↦ or_left olds news (h k c b front back (ground (arith, found, other)))
    ]

abbrev Gives : Option InputDecoder → Type 0
Gives none = Unit
Gives (some d) = HasPrefixes d

Gives-unless :
    (refused : Bool) (d : InputDecoder) → HasPrefixes d → Gives (if refused then none else some d)
Gives-unless true d h = tt
Gives-unless false d h = h

-- The body of the loop, whatever the key sequence, the text and its commands are.
round-HasPrefixes :
    (d : InputDecoder) (read : Option Bytes) (text : Text) (r : Parsed (List Text))
    → (refused : Bytes → List Text → Bool) → HasPrefixes d
    → Gives (elim read [
      | none ↦ none
      | some sequence ↦ elim text [
        | [] ↦ some d
        | c ∷ cs ↦ elim r [
          | rejected e ↦ none
          | parsed commands ↦
              if refused sequence commands then none else some (bound d sequence commands)
        ]
      ]
    ])
round-HasPrefixes d none text r refused h = tt
round-HasPrefixes d (some sequence) [] r refused h = h
round-HasPrefixes d (some sequence) (c ∷ cs) (rejected e) refused h = tt
round-HasPrefixes d (some sequence) (c ∷ cs) (parsed commands) refused h =
    Gives-unless (refused sequence commands) (bound d sequence commands)
      (bound-HasPrefixes d sequence commands h)

module _ (parse_key_sequence : Text → Option Bytes) (valid : Text → Bool) where
  add_binding-Gives :
      (specification command_text : Text) (d : InputDecoder)
      → HasPrefixes d
      → Gives (add_binding parse_key_sequence valid specification command_text d)
  unfolding add_binding
  add_binding-Gives specification command_text d h =
      round-HasPrefixes d (parse_key_sequence specification) (trim_space command_text)
        (split_prompt_commands command_text)
        (λ sequence commands.
          not (all (is_known parse_key_sequence valid d.escape_timeout) commands)
          || has sequence d.bindings)
        h

  -- The loop and what follows it.
  continue-Gives :
      (o : Option InputDecoder) (next : InputDecoder → Option InputDecoder)
      → Gives o
      → ((d : InputDecoder) → HasPrefixes d → Gives (next d))
      → Gives (elim o [ none ↦ none | some d ↦ next d ])
  continue-Gives none next h k = tt
  continue-Gives (some d) next h k = k d h

  add_bindings-Gives :
      (bindings : Dict Text Text) (d : InputDecoder)
      → HasPrefixes d
      → Gives (add_bindings parse_key_sequence valid bindings d)
  unfolding add_bindings
  add_bindings-Gives [] d h = h
  add_bindings-Gives ((specification, command_text) ∷ bindings) d h =
      continue-Gives (add_binding parse_key_sequence valid specification command_text d)
        (add_bindings parse_key_sequence valid bindings)
        (add_binding-Gives specification command_text d h) (λ e k. add_bindings-Gives bindings e k)

-- A decoder in which no binding hides another: every beginning of a key sequence waits, and a whole one
-- does not, except for a lone escape under a timeout.
abbrev pub IsUnambiguous : InputDecoder → Type 0
IsUnambiguous d =
    HasPrefixes d
    × ((key : Bytes) (commands : List Text)
        → get key d.bindings ≡ some commands
        → is_unambiguous d key ≡ true)

all-keys :
    (p : Bytes → Bool) (m : Dict Bytes (List Text)) (key : Bytes) (commands : List Text)
    → all p (keys m) ≡ true
    → get key m ≡ some commands
    → p key ≡ true
unfolding all keys get
all-keys p [] key commands h e = ground (arith, e)
all-keys p ((j, v) ∷ m) key commands h e = elim (Bool-cases (j == key)) [
  | inl same ↦
      subst (λ (q : Bytes). p q ≡ true) ((bytes_eq.beq_iff j key).0 same) (ground (arith, h))
  | inr other ↦ all-keys p m key commands (ground (arith, h)) (ground (arith, e, other))
]

empty-HasPrefixes : (timeout : Bool) → HasPrefixes (empty_decoder timeout)
unfolding get
empty-HasPrefixes timeout commands c b front back e = ground (arith, e)

-- The check after the loop.
checked :
    (o : Option InputDecoder) (d : InputDecoder)
    → Gives o
    → elim o [
      | none ↦ none
      | some made ↦ if all (is_unambiguous made) (keys made.bindings) then some made else none
    ]
      ≡ some d
    → IsUnambiguous d
checked none d h e = ground (arith, e)
checked (some made) d h e = elim (Bool-cases (all (is_unambiguous made) (keys made.bindings))) [
  | inl passed ↦
      subst IsUnambiguous (ground (arith, e, passed))
        (h, λ key commands f. all-keys (is_unambiguous made) made.bindings key commands passed f)
  | inr failed ↦ ground (arith, e, failed)
]

pub new_binding_decoder-IsUnambiguous :
    (parse_key_sequence : Text → Option Bytes) (valid : Text → Bool) (configured : Dict Text Text)
    → (timeout : Bool) (d : InputDecoder)
    → new_binding_decoder parse_key_sequence valid configured timeout ≡ some d
    → IsUnambiguous d
unfolding new_binding_decoder
new_binding_decoder-IsUnambiguous parse_key_sequence valid configured timeout d e =
    checked (add_bindings parse_key_sequence valid configured (empty_decoder timeout)) d
      (add_bindings-Gives parse_key_sequence valid configured (empty_decoder timeout)
        (empty-HasPrefixes timeout))
      e
