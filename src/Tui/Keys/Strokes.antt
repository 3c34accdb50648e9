-- ===== src/Tui/Keys/Strokes.antt =====
-- input.go, Feed: how the input is cut into pieces does not matter.
use project_ariadne.Base.{
  append_nil, append_assoc, ℕ, ◌≡◌, refl, ap, sym, ◌∙◌, subst, Bool, true, false, ◌&&◌, Option,
  none, some, List, [], ◌∷◌, ◌++◌, ◌==◌, if◌then◌else◌, get, contains,
}
use project_ariadne.Tui.Prompt.{Text}
use project_ariadne.Tui.Keys.{
  Bytes, InputToken, InputDecoder, Feeding, is_prefix, data_token, command_token, flushed_data,
  drain, feed_bytes, feed, escape, bytes_eq,
}

-- What a frontend sees of the tokens: bytes one by one, and pressed bindings.
pub data Stroke : Type 0 where
  typed : ℕ → Stroke
  pressed : List Text → Stroke

unfoldable pub each_typed : Bytes → List Stroke
each_typed [] = []
each_typed (b ∷ bs) = typed b ∷ each_typed bs

abbrev pub strokes_of : InputToken → List Stroke
strokes_of t = elim t.data_bytes [ [] ↦ pressed t.commands ∷ [] | b ∷ bs ↦ each_typed (b ∷ bs) ]

unfoldable pub strokes : List InputToken → List Stroke
unfolding each_typed
strokes [] = []
strokes (t ∷ ts) = strokes_of t ++ strokes ts

strokes-append : (ts us : List InputToken) → strokes (ts ++ us) ≡ strokes ts ++ strokes us
unfolding strokes
strokes-append [] us = refl
strokes-append (t ∷ ts) us =
    ap (λ rest. strokes_of t ++ rest) (strokes-append ts us)
    ∙ sym (append_assoc (strokes_of t) (strokes ts) (strokes us))

each_typed-append : (xs ys : Bytes) → each_typed (xs ++ ys) ≡ each_typed xs ++ each_typed ys
unfolding each_typed
each_typed-append [] ys = refl
each_typed-append (x ∷ xs) ys = ap (λ rest. typed x ∷ rest) (each_typed-append xs ys)

strokes-flushed_data :
    (ts : List InputToken) (bytes : Bytes)
    → strokes (flushed_data ts bytes) ≡ strokes ts ++ each_typed bytes
unfolding strokes each_typed
strokes-flushed_data ts [] = sym (append_nil (strokes ts))
strokes-flushed_data ts (b ∷ bs) =
    strokes-append ts (data_token (b ∷ bs) ∷ [])
    ∙ ap (λ rest. strokes ts ++ rest) (append_nil (each_typed (b ∷ bs)))

-- What Feed would give if it ended now.
abbrev so_far : Feeding → List Stroke
so_far s = strokes s.tokens ++ each_typed s.ordinary

-- The inner loop on its own: the strokes at pending bytes, and the bytes that stay pending.
unfoldable pub emitted : InputDecoder → Bytes → List Stroke × Bytes
unfolding get contains
emitted d [] = ([], [])
emitted d (b ∷ bs) =
    let rest = emitted d bs in
    elim (get (b ∷ bs) d.bindings) [
      | some commands ↦
          if is_prefix d (b ∷ bs) && d.escape_timeout && b ∷ bs == escape
          then ([], b ∷ bs)
          else (pressed commands ∷ [], [])
      | none ↦ if is_prefix d (b ∷ bs) then ([], b ∷ bs) else (typed b ∷ rest.0, rest.1)
    ]

-- The machine that Feed implements: it takes one byte after the other and buffers no data.
unfoldable pub strokes_from : InputDecoder → Bytes → Bytes → List Stroke × Bytes
unfolding emitted
strokes_from d pending [] = ([], pending)
strokes_from d pending (value ∷ input) =
    let now = emitted d (pending ++ value ∷ []) in
    let later = strokes_from d now.1 input in (now.0 ++ later.0, later.1)

abbrev Emits : Feeding → List Stroke × Bytes → Feeding → Type 0
Emits s e r = (so_far r ≡ so_far s ++ e.0) × (r.pending ≡ e.1)

so_far-typed :
    (s : Feeding) (b : ℕ)
    → so_far (record s { ordinary = s.ordinary ++ b ∷ [] }) ≡ so_far s ++ typed b ∷ []
unfolding each_typed
so_far-typed s b =
    ap (λ rest. strokes s.tokens ++ rest) (each_typed-append s.ordinary (b ∷ []))
    ∙ sym (append_assoc (strokes s.tokens) (each_typed s.ordinary) (typed b ∷ []))

so_far-pressed :
    (s : Feeding) (commands : List Text)
    → strokes (flushed_data s.tokens s.ordinary ++ command_token commands ∷ []) ++ []
      ≡ so_far s ++ pressed commands ∷ []
unfolding strokes
so_far-pressed s commands =
    append_nil (strokes (flushed_data s.tokens s.ordinary ++ command_token commands ∷ []))
    ∙ strokes-append (flushed_data s.tokens s.ordinary) (command_token commands ∷ [])
    ∙ ap (λ ts. ts ++ pressed commands ∷ []) (strokes-flushed_data s.tokens s.ordinary)

Emits-waiting : (s : Feeding) (p : Bytes) → Emits s ([], p) (record s { pending = p })
Emits-waiting s p = (sym (append_nil (so_far s)), refl)

abbrev kept : Feeding → ℕ → Feeding
kept s b = record s { ordinary = s.ordinary ++ b ∷ [] }

Emits-dropped :
    (s r : Feeding) (b : ℕ) (e : List Stroke × Bytes)
    → Emits (kept s b) e r
    → Emits s (typed b ∷ e.0, e.1) r
Emits-dropped s r b e k = (
  k.0 ∙ ap (λ front. front ++ e.0) (so_far-typed s b) ∙ append_assoc (so_far s) (typed b ∷ []) e.0,
  k.1,
)

abbrev press : Feeding → List Text → Feeding
press s commands = record {
  tokens = flushed_data s.tokens s.ordinary ++ command_token commands ∷ [];
  ordinary = [];
  pending = [];
}

-- One round of the inner loop, whatever the binding is.
round-Emits :
    (s r : Feeding) (b : ℕ) (bs : Bytes) (e : List Stroke × Bytes)
    → (held prefix : Bool) → (found : Option (List Text)) → Emits (kept s b) e r
    → Emits s
        (elim found [
          | some commands ↦ if held then ([], b ∷ bs) else (pressed commands ∷ [], [])
          | none ↦ if prefix then ([], b ∷ bs) else (typed b ∷ e.0, e.1)
        ])
        (elim found [
          | some commands ↦ if held then record s { pending = b ∷ bs } else press s commands
          | none ↦ if prefix then record s { pending = b ∷ bs } else r
        ])
unfolding each_typed strokes
round-Emits s r b bs e held true none k = Emits-waiting s (b ∷ bs)
round-Emits s r b bs e held false none k = Emits-dropped s r b e k
round-Emits s r b bs e true prefix (some commands) k = Emits-waiting s (b ∷ bs)
round-Emits s r b bs e false prefix (some commands) k = (so_far-pressed s commands, refl)

drain-Emits : (d : InputDecoder) (p : Bytes) (s : Feeding) → Emits s (emitted d p) (drain d p s)
unfolding drain emitted
drain-Emits d [] s = Emits-waiting s []
drain-Emits d (b ∷ bs) s =
    round-Emits s (drain d bs (kept s b)) b bs (emitted d bs)
      (is_prefix d (b ∷ bs) && d.escape_timeout && b ∷ bs == escape) (is_prefix d (b ∷ bs))
      (get (b ∷ bs) d.bindings) (drain-Emits d bs (kept s b))

feed_bytes-Emits :
    (d : InputDecoder) (input : Bytes) (s : Feeding)
    → Emits s (strokes_from d s.pending input) (feed_bytes d input s)
unfolding feed_bytes strokes_from
feed_bytes-Emits d [] s = (sym (append_nil (so_far s)), refl)
feed_bytes-Emits d (value ∷ input) s =
    let p : Bytes = s.pending ++ value ∷ [] in
    let next : Feeding = drain d p s in
    let first : Emits s (emitted d p) next = drain-Emits d p s in
    let rest_ : Emits next (strokes_from d (emitted d p).1 input) (feed_bytes d input next) =
      subst (λ (q : Bytes). Emits next (strokes_from d q input) (feed_bytes d input next)) first.1
        (feed_bytes-Emits d input next) in
    (
      rest_.0
          ∙ ap (λ front. front ++ (strokes_from d (emitted d p).1 input).0) first.0
          ∙ append_assoc (so_far s) (emitted d p).0 (strokes_from d (emitted d p).1 input).0,
      rest_.1,
    )

pub feed-strokes_from :
    (d : InputDecoder) (pending input : Bytes)
    → (strokes (feed d pending input).0 ≡ (strokes_from d pending input).0)
      × ((feed d pending input).1 ≡ (strokes_from d pending input).1)
unfolding feed strokes each_typed
feed-strokes_from d pending input =
    let s : Feeding = record { tokens = []; ordinary = []; pending = pending } in
    let r : Feeding = feed_bytes d input s in
    let e : Emits s (strokes_from d pending input) r = feed_bytes-Emits d input s in
    (strokes-flushed_data r.tokens r.ordinary ∙ e.0, e.1)

abbrev continued : InputDecoder → List Stroke × Bytes → Bytes → List Stroke × Bytes
continued d first input =
    ((first.0 ++ (strokes_from d first.1 input).0), (strokes_from d first.1 input).1)

strokes_from-append :
    (d : InputDecoder) (pending front back : Bytes)
    → strokes_from d pending (front ++ back) ≡ continued d (strokes_from d pending front) back
unfolding strokes_from
strokes_from-append d pending [] back = refl
strokes_from-append d pending (value ∷ front) back =
    let now = emitted d (pending ++ value ∷ []) in
    ap (λ (later : List Stroke × Bytes). ((now.0 ++ later.0), later.1))
      (strokes_from-append d now.1 front back)
    ∙ ap (λ (ss : List Stroke). (ss, (strokes_from d (strokes_from d now.1 front).1 back).1))
        (sym (
          append_assoc now.0 (strokes_from d now.1 front).0
            (strokes_from d (strokes_from d now.1 front).1 back).0))

-- However the input is cut into two reads: the bytes and commands that Feed gives for the two are those
-- that it gives for both at once, in the same order, and the same bytes stay pending.
pub feed-append :
    (d : InputDecoder) (pending front back : Bytes)
    → let first = feed d pending front in
      (strokes (feed d pending (front ++ back)).0
        ≡ strokes first.0 ++ strokes (feed d first.1 back).0)
      × ((feed d pending (front ++ back)).1 ≡ (feed d first.1 back).1)
feed-append d pending front back =
    let first : List InputToken × Bytes = feed d pending front in
    let f = feed-strokes_from d pending front in
    let b = feed-strokes_from d first.1 back in
    let whole = feed-strokes_from d pending (front ++ back) in
    let parts = strokes_from-append d pending front back in
    let after : strokes_from d (strokes_from d pending front).1 back ≡ strokes_from d first.1 back =
      ap (λ (q : Bytes). strokes_from d q back) (sym f.1) in
    (
      whole.0
          ∙ ap (λ (r : List Stroke × Bytes). r.0) parts
          ∙ ap (λ (r : List Stroke × Bytes). (strokes_from d pending front).0 ++ r.0) after
          ∙ ap (λ (ss : List Stroke). ss ++ (strokes_from d first.1 back).0) (sym f.0)
          ∙ ap (λ (ss : List Stroke). strokes first.0 ++ ss) (sym b.0),
      whole.1
          ∙ ap (λ (r : List Stroke × Bytes). r.1) parts
          ∙ ap (λ (r : List Stroke × Bytes). r.1) after
          ∙ sym b.1,
    )
