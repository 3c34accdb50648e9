-- ===== src/Examples/Frames.antt =====
-- The theorem on pastes (tui/input_frames.go) at a session that logs what reaches it.
use project_ariadne.Base.{◌≡◌, refl, false, List, [], ◌∷◌, ◌++◌}
use project_ariadne.Tui.Keys.{Bytes}
use project_ariadne.Tui.Frames.{
  Handlers, paste_start, paste_end, process_input, frame_bytes, frame_byte, drain_tail,
  drain_pending,
}
use project_ariadne.Tui.Frames.Paste.{at_rest, process_input-paste}

data Call : Type 0 where
  keys_call report_call paste_call : Bytes → Call
  refused_call : Call

abbrev logging : Handlers (List Call)
logging = record {
  focus = λ s. 1;
  input_mode = λ s. 0;
  copy_mode = λ s. false;
  clipboard_max = λ s. 4;
  process_keys = λ bytes s. s ++ keys_call bytes ∷ [];
  handle_report = λ bytes s. s ++ report_call bytes ∷ [];
  accept_paste = λ bytes s. s ++ paste_call bytes ∷ [];
  refuse_paste = λ s. s ++ refused_call ∷ [];
}

-- The text `ga`, which might be a keybinding.
process_input-paste_example :
    process_input logging (paste_start ++ ((103 ∷ 97 ∷ []) ++ paste_end)) (at_rest 0 0 false) []
    ≡ (at_rest 1 0 false, paste_call (103 ∷ 97 ∷ []) ∷ [])
process_input-paste_example =
    process_input-paste logging 0 0 false (103 ∷ 97 ∷ []) [] (refl, (refl, tt))

-- Keys, a mouse report, and a paste beyond the limit.
a_read :
    process_input logging
      ((98 ∷ 27 ∷ 91 ∷ 60 ∷ 48 ∷ 59 ∷ 49 ∷ 59 ∷ 49 ∷ 77 ∷ [])
        ++ (paste_start ++ ((97 ∷ 97 ∷ 97 ∷ 97 ∷ 97 ∷ []) ++ paste_end)))
      (at_rest 1 0 false)
      []
    ≡ (
      at_rest 1 0 false,
      keys_call (98 ∷ [])
          ∷ report_call (27 ∷ 91 ∷ 60 ∷ 48 ∷ 59 ∷ 49 ∷ 59 ∷ 49 ∷ 77 ∷ [])
          ∷ refused_call
          ∷ [],
    )
unfolding process_input frame_bytes frame_byte drain_tail drain_pending
a_read = refl
