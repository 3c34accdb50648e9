-- ===== src/Tui/Keys.antt =====
-- internal/frontend/tui/input.go, `inputDecoder.Feed`, and its escape timeout in mode_keys.go: bytes of
-- the terminal become ordinary input and the commands of keybindings.
pub mod Strokes
pub mod Whole
pub mod Bindings
pub mod Unambiguous
pub mod Pressed
use project_ariadne.Base.{
  ℕ, Bool, true, false, not, ◌&&◌, Option, none, some, List, [], ◌∷◌, ◌++◌, ◌==◌, nat_eq,
  if◌then◌else◌, Dict, get, contains, ◌≡◌, refl, Eq, arith, ◌↔◌,
}
use project_ariadne.Tui.Prompt.{Text}

abbrev pub Bytes : Type 0
Bytes = List ℕ

abbrev pub same_bytes : Bytes → Bytes → Bool
same_bytes [] [] = true
same_bytes [] (y ∷ ys) = false
same_bytes (x ∷ xs) [] = false
same_bytes (x ∷ xs) (y ∷ ys) = x == y && same_bytes xs ys

pub same_bytes_iff : (xs ys : Bytes) → (same_bytes xs ys ≡ true) ↔ (xs ≡ ys)
same_bytes_iff [] [] = ground arith
same_bytes_iff [] (y ∷ ys) = ground arith
same_bytes_iff (x ∷ xs) [] = ground arith
same_bytes_iff (x ∷ xs) (y ∷ ys) = ground (arith, same_bytes_iff xs ys)

instance abbrev pub bytes_eq : Eq Bytes
bytes_eq = record { same = same_bytes; beq_iff = same_bytes_iff }

abbrev pub escape : Bytes
escape = 27 ∷ []

-- A token has data, or the commands of a binding.
pub record InputToken : Type 0 where
  pub data_bytes : Bytes
  pub commands : List Text

-- What newBindingDecoder sets up and Feed reads only.
pub record InputDecoder : Type 0 where
  pub bindings : Dict Bytes (List Text)
  pub prefixes : List Bytes
  pub escape_timeout : Bool

-- The variables of Feed, with the field `pending`.
pub record Feeding : Type 0 where
  pub tokens : List InputToken
  pub ordinary : Bytes
  pub pending : Bytes

abbrev pub is_prefix : InputDecoder → Bytes → Bool
is_prefix d key = contains key d.prefixes

abbrev pub data_token : Bytes → InputToken
data_token bytes = record { data_bytes = bytes; commands = [] }

abbrev pub command_token : List Text → InputToken
command_token commands = record { data_bytes = []; commands = commands }

-- The closure `flushData`.
abbrev pub flushed_data : List InputToken → Bytes → List InputToken
flushed_data tokens [] = tokens
flushed_data tokens (b ∷ bs) = tokens ++ data_token (b ∷ bs) ∷ []

-- The inner loop of Feed at the pending bytes; each round leaves it or takes the first byte off.
unfoldable pub drain : InputDecoder → Bytes → Feeding → Feeding
unfolding get contains
drain d [] s = record s { pending = [] }
drain d (b ∷ bs) s =
    let dropped : Feeding = drain d bs (record s { ordinary = s.ordinary ++ b ∷ [] }) in
    let waiting : Feeding = record s { pending = b ∷ bs } in
    elim (get (b ∷ bs) d.bindings) [
      | some commands ↦
          if is_prefix d (b ∷ bs) && d.escape_timeout && b ∷ bs == escape then waiting else record {
            tokens = flushed_data s.tokens s.ordinary ++ command_token commands ∷ [];
            ordinary = [];
            pending = [];
          }
      | none ↦ if is_prefix d (b ∷ bs) then waiting else dropped
    ]

-- The loop of Feed over the bytes that were read.
unfoldable pub feed_bytes : InputDecoder → Bytes → Feeding → Feeding
unfolding drain
feed_bytes d [] s = s
feed_bytes d (value ∷ input) s = feed_bytes d input (drain d (s.pending ++ value ∷ []) s)

-- Feed: the tokens, and the bytes that stay pending.
unfoldable pub feed : InputDecoder → Bytes → Bytes → List InputToken × Bytes
unfolding feed_bytes
feed d pending input =
    let s = feed_bytes d input (record { tokens = []; ordinary = []; pending = pending }) in
    (flushed_data s.tokens s.ordinary, s.pending)
