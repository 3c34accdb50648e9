-- ===== src/Tui/Keys/Whole.antt =====
-- input.go, Feed: no byte is lost.
use project_ariadne.Base.{
  append_nil, append_assoc, none, false, refl, ◌&&◌, if◌then◌else◌, ◌==◌, ◌≡◌, true, some, List, [],
  ◌∷◌, ◌++◌, get, ◌⊎◌, subst, ap, ℕ, ◌∙◌, sym, Bool, inl, Option, inr,
}
use project_ariadne.Tui.Keys.{escape, Bytes, InputDecoder, is_prefix, bytes_eq, Text, feed}
use project_ariadne.Tui.Keys.Strokes.{
  Stroke, typed, pressed, strokes, emitted, strokes_from, feed-strokes_from,
}

-- The strokes stand for the bytes: a byte for itself, commands for the key sequence of a binding.
abbrev pub Spells : InputDecoder → List Stroke → Bytes → Type 0
Spells d [] bytes = bytes ≡ []
Spells d (typed b ∷ ss) bytes = (rest : Bytes) × (bytes ≡ b ∷ rest) × Spells d ss rest
Spells d (pressed commands ∷ ss) bytes =
    (key : Bytes) × (rest : Bytes) × (get key d.bindings ≡ some commands)
    × (bytes ≡ key ++ rest)
    × Spells d ss rest

-- Nothing is pending, or the beginning of a key sequence.
abbrev pub IsWaiting : InputDecoder → Bytes → Type 0
IsWaiting d pending = (pending ≡ []) ⊎ (is_prefix d pending ≡ true)

-- The strokes of a step and what stays pending stand for the given bytes, in order.
abbrev Accounts : InputDecoder → List Stroke × Bytes → Bytes → Type 0
Accounts d r given =
    (spelled : Bytes) × Spells d r.0 spelled × (spelled ++ r.1 ≡ given) × IsWaiting d r.1

Accounts-waiting : (d : InputDecoder) (p : Bytes) → IsWaiting d p → Accounts d ([], p) p
Accounts-waiting d p w = ([], refl, refl, w)

Accounts-typed :
    (d : InputDecoder) (b : ℕ) (bs : Bytes) (r : List Stroke × Bytes)
    → Accounts d r bs
    → Accounts d (typed b ∷ r.0, r.1) (b ∷ bs)
Accounts-typed d b bs r (spelled, spells, whole, waits) =
    (b ∷ spelled, (spelled, refl, spells), ap (λ rest. b ∷ rest) whole, waits)

Accounts-pressed :
    (d : InputDecoder) (key : Bytes) (commands : List Text)
    → get key d.bindings ≡ some commands
    → Accounts d (pressed commands ∷ [], []) key
Accounts-pressed d key commands e =
    (key, (key, [], e, sym (append_nil key), refl), append_nil key, inl refl)

-- One round of the inner loop, whatever the binding is.
round-Accounts :
    (d : InputDecoder) (b : ℕ) (bs : Bytes) (e : List Stroke × Bytes)
    (timeout at_escape prefix : Bool)
    → (found : Option (List Text)) → is_prefix d (b ∷ bs) ≡ prefix
    → get (b ∷ bs) d.bindings ≡ found
    → Accounts d e bs
    → Accounts d
        (elim found [
          | some commands ↦
              if prefix && timeout && at_escape then ([], b ∷ bs) else (pressed commands ∷ [], [])
          | none ↦ if prefix then ([], b ∷ bs) else (typed b ∷ e.0, e.1)
        ])
        (b ∷ bs)
round-Accounts d b bs e timeout at_escape true none h g k = Accounts-waiting d (b ∷ bs) (inr h)
round-Accounts d b bs e timeout at_escape false none h g k = Accounts-typed d b bs e k
round-Accounts d b bs e true true true (some commands) h g k = Accounts-waiting d (b ∷ bs) (inr h)
round-Accounts d b bs e true false true (some commands) h g k =
    Accounts-pressed d (b ∷ bs) commands g
round-Accounts d b bs e false at_escape true (some commands) h g k =
    Accounts-pressed d (b ∷ bs) commands g
round-Accounts d b bs e timeout at_escape false (some commands) h g k =
    Accounts-pressed d (b ∷ bs) commands g

emitted-Accounts : (d : InputDecoder) (p : Bytes) → Accounts d (emitted d p) p
unfolding emitted
emitted-Accounts d [] = Accounts-waiting d [] (inl refl)
emitted-Accounts d (b ∷ bs) =
    round-Accounts d b bs (emitted d bs) d.escape_timeout (b ∷ bs == escape) (is_prefix d (b ∷ bs))
      (get (b ∷ bs) d.bindings) refl refl (emitted-Accounts d bs)

Spells-append :
    (d : InputDecoder) (ss ts : List Stroke) (xs ys : Bytes)
    → Spells d ss xs
    → Spells d ts ys
    → Spells d (ss ++ ts) (xs ++ ys)
Spells-append d [] ts xs ys h k = subst (λ (front : Bytes). Spells d ts (front ++ ys)) (sym h) k
Spells-append d (typed b ∷ ss) ts xs ys (rest, e, h) k =
    (rest ++ ys, ap (λ (front : Bytes). front ++ ys) e, Spells-append d ss ts rest ys h k)
Spells-append d (pressed commands ∷ ss) ts xs ys (key, rest, bound, e, h) k = (
  key,
  rest ++ ys,
  bound,
  ap (λ (front : Bytes). front ++ ys) e ∙ append_assoc key rest ys,
  Spells-append d ss ts rest ys h k,
)

-- A step and the steps after it.
joined :
    (d : InputDecoder) (pending : Bytes) (value : ℕ) (input : Bytes) (now : List Stroke × Bytes)
    → Accounts d now (pending ++ value ∷ [])
    → (IsWaiting d now.1 → Accounts d (strokes_from d now.1 input) (now.1 ++ input))
    → Accounts d
        (now.0 ++ (strokes_from d now.1 input).0, (strokes_from d now.1 input).1)
        (pending ++ value ∷ input)
joined d pending value input now (front, spells, whole, waits) go =
    let (back, spells', whole', waits') = go waits in
    (
      front ++ back,
      Spells-append d now.0 (strokes_from d now.1 input).0 front back spells spells',
      append_assoc front back (strokes_from d now.1 input).1
          ∙ ap (λ (rest : Bytes). front ++ rest) whole'
          ∙ sym (append_assoc front now.1 input)
          ∙ ap (λ (rest : Bytes). rest ++ input) whole
          ∙ append_assoc pending (value ∷ []) input,
      waits',
    )

strokes_from-Accounts :
    (d : InputDecoder) (pending input : Bytes)
    → IsWaiting d pending
    → Accounts d (strokes_from d pending input) (pending ++ input)
unfolding strokes_from
strokes_from-Accounts d pending [] w = ([], refl, sym (append_nil pending), w)
strokes_from-Accounts d pending (value ∷ input) w =
    joined d pending value input (emitted d (pending ++ value ∷ []))
      (emitted-Accounts d (pending ++ value ∷ []))
      (strokes_from-Accounts d (emitted d (pending ++ value ∷ [])).1 input)

-- No byte is lost: what was pending and what is read are, in this order, what the bytes and commands
-- of the tokens stand for and what stays pending, which is nothing or the beginning of a key sequence.
pub feed-Spells :
    (d : InputDecoder) (pending input : Bytes)
    → IsWaiting d pending
    → (spelled : Bytes) × Spells d (strokes (feed d pending input).0) spelled
      × (spelled ++ (feed d pending input).1 ≡ pending ++ input)
      × IsWaiting d (feed d pending input).1
feed-Spells d pending input w =
    let e = feed-strokes_from d pending input in
    subst (λ (r : List Stroke × Bytes). Accounts d r (pending ++ input))
      (ap (λ (ss : List Stroke). (ss, (strokes_from d pending input).1)) (sym e.0)
        ∙ ap (λ (p : Bytes). (strokes (feed d pending input).0, p)) (sym e.1))
      (strokes_from-Accounts d pending input w)
