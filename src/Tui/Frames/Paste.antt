-- ===== src/Tui/Frames/Paste.antt =====
-- input_frames.go: a paste arrives whole and runs no keybindings.
use project_ariadne.Base.{
  ◌⊎◌, inl, inr, Bool-cases, leb, ℕ, ◌+◌, ◌≤◌, ◌<◌, ◌≡◌, refl, ap, sym, ◌∙◌, Bool, true, false, not,
  ◌&&◌, [], ◌∷◌, ◌++◌, ◌==◌, nat_eq, if◌then◌else◌, length, length-append, ltb, arith, All,
  append_assoc, append_nil, beq_self,
}
use project_ariadne.Tui.Keys.{Bytes, bytes_eq}
use project_ariadne.Tui.Frames.{
  Handlers, flush_keys, InputFramer, Framing, paste_start, paste_end, drain_tail, drain_pending,
  paste_limit, frame_byte, frame_bytes, process_input, end_paste, same_flag,
}

-- Neither a paste nor the beginning of a frame is under way.
abbrev pub at_rest : ℕ → ℕ → Bool → InputFramer
at_rest pane mode copy = record {
  pending = [];
  pasting = false;
  paste = [];
  tail = [];
  overflow = false;
  pane = pane;
  mode = mode;
  copy = copy;
}

-- An escape begins the end of the paste, so no other byte of the text waits for it.
abbrev pub IsPlain : ℕ → Type 0
IsPlain b = (b == 27) ≡ false

module _ {S : Type 0} (h : Handlers S) where
  -- Within a paste that has begun in this session; the flag tells whether it is too long.
  abbrev within : Bool → Bytes → S → Framing S
  within over text s = record {
    framer = record {
      pending = [];
      pasting = true;
      paste = text;
      tail = [];
      overflow = over;
      pane = h.focus s;
      mode = h.input_mode s;
      copy = h.copy_mode s;
    };
    ordinary = [];
    session = s;
  }

  started :
      (pane mode : ℕ) (copy : Bool) (rest : Bytes) (s : S)
      → frame_bytes h
          (paste_start ++ rest)
          (record { framer = at_rest pane mode copy; ordinary = []; session = s })
        ≡ frame_bytes h rest (within false [] s)
  unfolding frame_bytes frame_byte drain_pending
  started pane mode copy rest s = refl

  -- The framer after a byte, which has room or not.
  abbrev taken : ℕ → Bool → Bytes → S → Bool → InputFramer
  taken b over text s room =
      if room
      then record (within over text s).framer { paste = text ++ b ∷ [] }
      else record (within over text s).framer { overflow = true }

  plain_byte :
      (b : ℕ) (over : Bool) (text : Bytes) (s : S) (room : Bool)
      → IsPlain b
      → ltb (length text) (paste_limit h s) ≡ room
      → frame_byte h b (within over text s)
        ≡ record (within over text s) { framer = record (taken b over text s room) { tail = [] } }
  unfolding frame_byte drain_tail
  plain_byte b over text s room plain fits =
      let ends : (b == 27 && false) ≡ false = ground (arith, plain) in
      let begins : (27 == b && true) ≡ false = ground (arith, plain) in
      let start : InputFramer = (within over text s).framer in
      let waiting : InputFramer = record start { tail = b ∷ [] } in
      let after : Bool → Bool → InputFramer =
        λ w r. if w then waiting else record (taken b over text s r) { tail = [] } in
      let finished : Framing S = record (within over text s) {
        framer = record start { pasting = false; paste = []; tail = []; overflow = false };
        session = end_paste h start s;
      } in
      ap
        (λ e. if e then finished else record (within over text s) {
          framer = after (27 == b && true) (ltb (length text) (paste_limit h s));
        })
        ends
      ∙ ap
          (λ w. record (within over text s) {
            framer = after w (ltb (length text) (paste_limit h s));
          })
          begins
      ∙ ap (λ r. record (within over text s) { framer = after false r }) fits

  same_flag_self : (b : Bool) → same_flag b b ≡ true
  same_flag_self true = refl
  same_flag_self false = refl

  all_same : (a b c : Bool) → a ≡ true → b ≡ true → c ≡ true → (not false && a && b && c) ≡ true
  all_same a b c p q r = ground (arith, p, q, r)

  ended :
      (text : Bytes) (s : S)
      → frame_bytes h paste_end (within false text s) ≡ record {
        framer = at_rest (h.focus s) (h.input_mode s) (h.copy_mode s);
        ordinary = [];
        session = h.accept_paste text s;
      }
  unfolding frame_bytes frame_byte drain_tail
  ended text s =
      ap
        (λ t. record {
          framer = at_rest (h.focus s) (h.input_mode s) (h.copy_mode s);
          ordinary = [];
          session = if t then h.accept_paste text s else s;
        })
        (all_same (h.focus s == h.focus s) (h.input_mode s == h.input_mode s)
          (same_flag (h.copy_mode s) (h.copy_mode s)) (beq_self (h.focus s))
          (beq_self (h.input_mode s)) (same_flag_self (h.copy_mode s)))

  abbrev refused : S → Framing S
  refused s = record {
    framer = at_rest (h.focus s) (h.input_mode s) (h.copy_mode s);
    ordinary = [];
    session = h.refuse_paste s;
  }

  ended_over : (text : Bytes) (s : S) → frame_bytes h paste_end (within true text s) ≡ refused s
  unfolding frame_bytes frame_byte drain_tail
  ended_over text s = refl

  pasted_all :
      (text done : Bytes) (s : S)
      → All IsPlain text
      → length done + length text ≤ paste_limit h s
      → frame_bytes h (text ++ paste_end) (within false done s)
        ≡ frame_bytes h paste_end (within false (done ++ text) s)
  unfolding frame_bytes
  pasted_all [] done s plain room =
      ap (λ (q : Bytes). frame_bytes h paste_end (within false q s)) (sym (append_nil done))
  pasted_all (b ∷ text) done s (plain, rest) room =
      let len : length (done ++ b ∷ []) ≡ length done + 1 = length-append done (b ∷ []) in
      ap (frame_bytes h (text ++ paste_end))
        (plain_byte b false done s true plain (ground (arith, room)))
      ∙ pasted_all text (done ++ b ∷ []) s rest (ground (arith, room, len))
      ∙ ap (λ (q : Bytes). frame_bytes h paste_end (within false q s))
          (append_assoc done (b ∷ []) text)

  -- The first byte without room, and every byte after it, is dropped.
  dropped_all :
      (over : Bool) (text done : Bytes) (s : S)
      → All IsPlain text
      → length done ≤ paste_limit h s
      → paste_limit h s < length done + length text ⊎ over ≡ true
      → frame_bytes h (text ++ paste_end) (within over done s) ≡ refused s
  unfolding frame_bytes
  dropped_all true [] done s plain most many = ended_over done s
  dropped_all false [] done s plain most many = ground (arith, most, many)
  dropped_all over (b ∷ text) done s (plain, rest) most many =
      let len : length (done ++ b ∷ []) ≡ length done + 1 = length-append done (b ∷ []) in
      elim (Bool-cases (ltb (length done) (paste_limit h s))) [
        | inl room ↦
            ap (frame_bytes h (text ++ paste_end)) (plain_byte b over done s true plain room)
            ∙ dropped_all over text (done ++ b ∷ []) s rest (ground (arith, room, len))
                (ground (arith, many, len))
        | inr full ↦
            ap (frame_bytes h (text ++ paste_end)) (plain_byte b over done s false plain full)
            ∙ dropped_all true text done s rest most (inr refl)
      ]

-- A bracketed paste of a text without escape bytes that arrives in one read while nothing is under way:
-- processInput hands the whole text to acceptPaste if it is within the limit, and else only reports
-- that it is too long. It calls nothing else, so that no keybinding runs, and afterwards nothing is
-- under way.
pub process_input-paste :
    {S : Type 0} (h : Handlers S) (pane mode : ℕ) (copy : Bool) (text : Bytes) (s : S)
    → All IsPlain text
    → process_input h (paste_start ++ (text ++ paste_end)) (at_rest pane mode copy) s ≡ (
      at_rest (h.focus s) (h.input_mode s) (h.copy_mode s),
      if leb (length text) (paste_limit h s) then h.accept_paste text s else h.refuse_paste s,
    )
unfolding process_input
process_input-paste {S} h pane mode copy text s plain =
    let done : Framing S → InputFramer × S = λ x. (x.framer, flush_keys h x.ordinary x.session) in
    let pair : Bool → InputFramer × S = λ fits. (
      at_rest (h.focus s) (h.input_mode s) (h.copy_mode s),
      if fits then h.accept_paste text s else h.refuse_paste s,
    ) in
    elim (Bool-cases (leb (length text) (paste_limit h s))) [
      | inl fits ↦
          ap done (
            started h pane mode copy (text ++ paste_end) s
            ∙ pasted_all h text [] s plain (ground (arith, fits))
            ∙ ended h text s)
          ∙ ap pair (sym fits)
      | inr long ↦
          ap done (
            started h pane mode copy (text ++ paste_end) s
            ∙ dropped_all h false text [] s plain (omega arith) (inl (ground (arith, long))))
          ∙ ap pair (sym long)
    ]
