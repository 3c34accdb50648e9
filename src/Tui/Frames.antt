-- ===== src/Tui/Frames.antt =====
-- internal/frontend/tui/input_frames.go, `processInput`: pastes and mouse reports are cut out of the
-- input before the keybindings see it. The time of the last byte, which only flushInputFrames reads, is
-- left out.
pub mod Paste
use project_ariadne.Base.{
  ℕ, ◌+◌, ◌*◌, Bool, true, false, not, ◌&&◌, ◌||◌, List, [], ◌∷◌, ◌++◌, ◌==◌, nat_eq, if◌then◌else◌,
  length, ltb,
}
use project_ariadne.Tui.Keys.{Bytes, bytes_eq}

-- What the framer reads of a session, and the methods that it calls.
pub record Handlers (S : Type 0) : Type 0 where
  pub focus : S → ℕ
  pub input_mode : S → ℕ
  pub copy_mode : S → Bool
  pub clipboard_max : S → ℕ
  pub process_keys : Bytes → S → S
  pub handle_report : Bytes → S → S
  pub accept_paste : Bytes → S → S
  pub refuse_paste : S → S

pub record InputFramer : Type 0 where
  pub pending : Bytes
  pub pasting : Bool
  pub paste : Bytes
  pub tail : Bytes
  pub overflow : Bool
  pub pane : ℕ
  pub mode : ℕ
  pub copy : Bool

abbrev pub paste_start : Bytes
paste_start = 27 ∷ 91 ∷ 50 ∷ 48 ∷ 48 ∷ 126 ∷ []

abbrev pub paste_end : Bytes
paste_end = 27 ∷ 91 ∷ 50 ∷ 48 ∷ 49 ∷ 126 ∷ []

abbrev pub mouse_start : Bytes
mouse_start = 27 ∷ 91 ∷ 60 ∷ []

-- `bytes.HasPrefix`.
abbrev pub has_prefix : Bytes → Bytes → Bool
has_prefix xs [] = true
has_prefix [] (p ∷ ps) = false
has_prefix (x ∷ xs) (p ∷ ps) = x == p && has_prefix xs ps

abbrev pub same_flag : Bool → Bool → Bool
same_flag true b = b
same_flag false b = not b

-- The session, its framer, and the variable `ordinary`.
pub record Framing (S : Type 0) : Type 0 where
  pub framer : InputFramer
  pub ordinary : Bytes
  pub session : S

-- The inner loop within a paste: bytes that cannot belong to its end are pasted, up to the limit.
unfoldable pub drain_tail : ℕ → Bytes → InputFramer → InputFramer
drain_tail limit [] f = record f { tail = [] }
drain_tail limit (b ∷ bs) f =
    let taken : InputFramer =
      if ltb (length f.paste) limit
      then record f { paste = f.paste ++ b ∷ [] }
      else record f { overflow = true } in
    let rest : InputFramer = drain_tail limit bs taken in
    if has_prefix paste_end (b ∷ bs) then record f { tail = b ∷ bs } else rest

-- The inner loop outside of one.
unfoldable pub drain_pending : Bytes → Bytes → Bytes × Bytes
drain_pending ordinary [] = (ordinary, [])
drain_pending ordinary (b ∷ bs) =
    let rest : Bytes × Bytes = drain_pending (ordinary ++ b ∷ []) bs in
    if has_prefix paste_start (b ∷ bs) || has_prefix mouse_start (b ∷ bs)
    then (ordinary, b ∷ bs)
    else rest

abbrev pub is_ascii_digit : ℕ → Bool
is_ascii_digit b = not (ltb b 48) && not (ltb 57 b)

module _ {S : Type 0} (h : Handlers S) where
  -- The closure `flush`.
  abbrev pub flush_keys : Bytes → S → S
  flush_keys [] s = s
  flush_keys (b ∷ bs) s = h.process_keys (b ∷ bs) s

  abbrev pub paste_limit : S → ℕ
  paste_limit s = if h.clipboard_max s == 0 then 1048576 else h.clipboard_max s

  -- The end of a paste.
  abbrev pub end_paste : InputFramer → S → S
  end_paste f s =
      if not f.overflow
        && h.focus s == f.pane
        && h.input_mode s == f.mode
        && same_flag (h.copy_mode s) f.copy
      then h.accept_paste f.paste s
      else (if f.overflow then h.refuse_paste s else s)

  abbrev pub paste_byte : ℕ → Framing S → Framing S
  paste_byte b x =
      let f : InputFramer = x.framer in
      let seen : Bytes = f.tail ++ b ∷ [] in
      if seen == paste_end
      then record x {
        framer = record f { pasting = false; paste = []; tail = []; overflow = false };
        session = end_paste f x.session;
      }
      else record x { framer = drain_tail (paste_limit x.session) seen f }

  abbrev pub start_paste : Framing S → Framing S
  start_paste x =
      let s : S = flush_keys x.ordinary x.session in
      record {
        framer = record x.framer {
          pending = [];
          pasting = true;
          pane = h.focus s;
          mode = h.input_mode s;
          copy = h.copy_mode s;
        };
        ordinary = [];
        session = s;
      }

  -- A byte of a mouse report.
  abbrev pub report_byte : ℕ → Bytes → Framing S → Framing S
  report_byte b seen x =
      if b == 109 || b == 77
      then record {
        framer = record x.framer { pending = [] };
        ordinary = [];
        session = h.handle_report seen (flush_keys x.ordinary x.session);
      }
      else (if ltb 64 (length seen)
            || ltb 3 (length seen) && not (b == 59) && not (is_ascii_digit b)
          then record x { framer = record x.framer { pending = [] } }
          else record x { framer = record x.framer { pending = seen } })

  -- The body of the loop.
  unfoldable pub frame_byte : ℕ → Framing S → Framing S
  unfolding drain_tail drain_pending
  frame_byte b x =
      let seen : Bytes = x.framer.pending ++ b ∷ [] in
      let plain : Bytes × Bytes = drain_pending x.ordinary seen in
      if x.framer.pasting
      then paste_byte b x
      else (if seen == paste_start
          then start_paste x
          else (if has_prefix seen mouse_start
              then report_byte b seen x
              else record x { framer = record x.framer { pending = plain.1 }; ordinary = plain.0 }))

  unfoldable pub frame_bytes : Bytes → Framing S → Framing S
  unfolding frame_byte
  frame_bytes [] x = x
  frame_bytes (b ∷ bytes) x = frame_bytes bytes (frame_byte b x)

  unfoldable pub process_input : Bytes → InputFramer → S → InputFramer × S
  unfolding frame_bytes
  process_input bytes f s =
      let x : Framing S = frame_bytes bytes (record { framer = f; ordinary = []; session = s }) in
      (x.framer, flush_keys x.ordinary x.session)
