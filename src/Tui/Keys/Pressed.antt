-- ===== src/Tui/Keys/Pressed.antt =====
-- input.go, `newBindingDecoder` and Feed together: a key sequence that is typed runs its binding.
use project_ariadne.Base.{
  ℕ, ◌≡◌, refl, ap, sym, ◌∙◌, subst, Bool, true, false, not, ◌&&◌, ◌||◌, Option, none, some, List,
  [], ◌∷◌, ◌++◌, ◌==◌, if◌then◌else◌, Dict, get, arith, append_assoc,
}
use project_ariadne.Tui.Prompt.{Text}
use project_ariadne.Tui.Keys.{
  Bytes, InputDecoder, Feeding, is_prefix, escape, bytes_eq, drain, feed_bytes, feed, flushed_data,
  command_token,
}
use project_ariadne.Tui.Keys.Bindings.{new_binding_decoder}
use project_ariadne.Tui.Keys.Unambiguous.{IsUnambiguous, new_binding_decoder-IsUnambiguous}

abbrev idle : Bytes → Feeding
idle p = record { tokens = []; ordinary = []; pending = p }

abbrev ran : List Text → Feeding
ran commands = record { tokens = command_token commands ∷ []; ordinary = []; pending = [] }

-- The beginning of a key sequence waits, whether it is bound or not.
waits :
    {A : Type 0} (found : Option (List Text)) (prefix timeout at_escape : Bool)
    (waiting dropped : A)
    → (press : List Text → A) → prefix ≡ true
    → ((commands : List Text) → found ≡ some commands → (not prefix || timeout && at_escape) ≡ true)
    → elim found [
      | some commands ↦ if prefix && timeout && at_escape then waiting else press commands
      | none ↦ if prefix then waiting else dropped
    ]
      ≡ waiting
waits none prefix timeout at_escape waiting dropped press h k = ground (arith, h)
waits (some commands) prefix timeout at_escape waiting dropped press h k =
    let held : (not prefix || timeout && at_escape) ≡ true = k commands refl in
    ground (arith, h, held)

drain-waits :
    (d : InputDecoder) (b : ℕ) (bs : Bytes)
    → IsUnambiguous d
    → is_prefix d (b ∷ bs) ≡ true
    → (pending : Bytes) → drain d (b ∷ bs) (idle pending) ≡ idle (b ∷ bs)
unfolding drain
drain-waits d b bs v h pending =
    waits (get (b ∷ bs) d.bindings) (is_prefix d (b ∷ bs)) d.escape_timeout (b ∷ bs == escape)
      (idle (b ∷ bs)) (drain d bs (record { tokens = []; ordinary = b ∷ []; pending = pending }))
      ran h (λ commands e. v.1 (b ∷ bs) commands e)

presses :
    {A : Type 0} (found : Option (List Text)) (commands : List Text)
    → (prefix timeout at_escape : Bool) → (waiting dropped : A) → (press : List Text → A)
    → found ≡ some commands
    → (timeout && at_escape) ≡ false
    → elim found [
      | some keys ↦ if prefix && timeout && at_escape then waiting else press keys
      | none ↦ if prefix then waiting else dropped
    ]
      ≡ press commands
presses none commands prefix timeout at_escape waiting dropped press e h = ground (arith, e)
presses (some keys) commands prefix timeout at_escape waiting dropped press e h =
    ground (arith, e, h)

drain-presses :
    (d : InputDecoder) (b : ℕ) (bs : Bytes) (commands : List Text)
    → get (b ∷ bs) d.bindings ≡ some commands
    → (d.escape_timeout && b ∷ bs == escape) ≡ false
    → (pending : Bytes) → drain d (b ∷ bs) (idle pending) ≡ ran commands
unfolding drain
drain-presses d b bs commands e h pending =
    presses (get (b ∷ bs) d.bindings) commands (is_prefix d (b ∷ bs)) d.escape_timeout
      (b ∷ bs == escape) (idle (b ∷ bs))
      (drain d bs (record { tokens = []; ordinary = b ∷ []; pending = pending })) ran e h

-- From the first byte of the sequence on.
feed_bytes-ran :
    (d : InputDecoder) (c : ℕ) (done rest : Bytes) (v : ℕ) (commands : List Text)
    → IsUnambiguous d
    → get (c ∷ (done ++ v ∷ rest)) d.bindings ≡ some commands
    → (d.escape_timeout && c ∷ (done ++ v ∷ rest) == escape) ≡ false
    → feed_bytes d (v ∷ rest) (idle (c ∷ done)) ≡ ran commands
unfolding feed_bytes
feed_bytes-ran d c done [] v commands u e h =
    drain-presses d c (done ++ v ∷ []) commands e h (c ∷ done)
feed_bytes-ran d c done (w ∷ rest) v commands u e h =
    let whole : (done ++ v ∷ []) ++ w ∷ rest ≡ done ++ v ∷ w ∷ rest =
      append_assoc done (v ∷ []) (w ∷ rest) in
    let found : get (c ∷ ((done ++ v ∷ []) ++ w ∷ rest)) d.bindings ≡ some commands =
      subst (λ (q : Bytes). get (c ∷ q) d.bindings ≡ some commands) (sym whole) e in
    let free : (d.escape_timeout && c ∷ ((done ++ v ∷ []) ++ w ∷ rest) == escape) ≡ false =
      subst (λ (q : Bytes). (d.escape_timeout && c ∷ q == escape) ≡ false) (sym whole) h in
    ap (feed_bytes d (w ∷ rest))
      (drain-waits d c (done ++ v ∷ []) u (u.0 commands c w (done ++ v ∷ []) rest found) (c ∷ done))
    ∙ feed_bytes-ran d c (done ++ v ∷ []) rest w commands u found free

typed_sequence :
    (d : InputDecoder) (c : ℕ) (cs : Bytes) (commands : List Text)
    → IsUnambiguous d
    → get (c ∷ cs) d.bindings ≡ some commands
    → (d.escape_timeout && c ∷ cs == escape) ≡ false
    → feed_bytes d (c ∷ cs) (idle []) ≡ ran commands
unfolding feed_bytes
typed_sequence d c [] commands u e h = drain-presses d c [] commands e h []
typed_sequence d c (v ∷ cs) commands u e h =
    ap (feed_bytes d (v ∷ cs)) (drain-waits d c [] u (u.0 commands c v [] cs e) [])
    ∙ feed_bytes-ran d c [] cs v commands u e h

-- In a decoder that newBindingDecoder makes, whatever the key names and the other bindings are: typing
-- the key sequence of a binding while nothing is pending gives its commands and nothing else, and
-- leaves nothing pending, unless the sequence is a lone escape that waits for a timeout.
pub typed_binding_runs :
    (parse_key_sequence : Text → Option Bytes) (valid : Text → Bool) (configured : Dict Text Text)
    → (timeout : Bool) (d : InputDecoder) (c : ℕ) (cs : Bytes) (commands : List Text)
    → new_binding_decoder parse_key_sequence valid configured timeout ≡ some d
    → get (c ∷ cs) d.bindings ≡ some commands
    → (d.escape_timeout && c ∷ cs == escape) ≡ false
    → feed d [] (c ∷ cs) ≡ (command_token commands ∷ [], [])
unfolding feed
typed_binding_runs parse_key_sequence valid configured timeout d c cs commands made e h =
    ap (λ (s : Feeding). (flushed_data s.tokens s.ordinary, s.pending))
      (typed_sequence d c cs commands
        (new_binding_decoder-IsUnambiguous parse_key_sequence valid configured timeout d made) e h)
