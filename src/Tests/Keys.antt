-- ===== src/Tests/Keys.antt =====
-- The theorems on src/terminal/KeyEncoder.cpp at concrete keys and a concrete paste, and on
-- the mouse reports of src/terminal/TerminalWidget.cpp.
use ar_term.Prelude.{◌≡◌, refl, true, false, ℕ, arith, List, [], ◌∷◌, All}
use ar_term.VtParser.{initial}
use ar_term.KeyEncoder.{Modifiers, Options, key_delete, KeyEvent}
use ar_term.Prelude.Int.{pos}
use ar_term.Terminal.Modes.{any_event, sgr}
use ar_term.Mouse.{right_button, MouseEvent, send_mouse_event, sent, is_wanted}
use ar_term.Mouse.Reading.{TellsMouse, send_mouse_event-TellsMouse}
use ar_term.KeyEncoder.Paste.{QtPaste, normalise, encode_paste, IsSafe, IsUtf8, encode_paste-IsSafe}

abbrev shift_control : Modifiers
shift_control = record { shift = true; alt = false; control = true; meta = false }

abbrev options : Options
options = record {
  application_cursor_keys = false;
  application_keypad = false;
  new_line_mode = false;
  option_is_meta = true;
  backspace_sends_delete = true;
}

abbrev press : KeyEvent
press = record { key = key_delete; modifiers = shift_control; text = [] }

abbrev paste : QtPaste
paste = record {
  replace = λ before after units. units;
  remove = λ guard units. units;
  to_utf8 = λ units. units;
}

ascii-paste : IsUtf8 paste
ascii-paste = record { ascii = λ text c lt h. h }

abbrev clipboard : List ℕ
clipboard = b'l' ∷ 0x1B ∷ 0x0D ∷ []

encode_paste-IsSafe_example :
    All IsSafe (encode_paste paste clipboard false)
    × (All IsSafe (normalise paste clipboard)
        → encode_paste paste clipboard false ≡ paste.to_utf8 (normalise paste clipboard))
encode_paste-IsSafe_example = encode_paste-IsSafe paste clipboard ascii-paste

abbrev click : MouseEvent
click = record {
  button = right_button;
  modifiers = record { shift = false; alt = true; control = false; meta = false };
  column = 7;
  row = pos 2;
}

send_mouse_event-TellsMouse_example :
    (bytes : List ℕ) × (send_mouse_event any_event sgr 24 click true false ≡ sent bytes)
    × TellsMouse initial bytes click true false 2
unfolding is_wanted
send_mouse_event-TellsMouse_example =
    send_mouse_event-TellsMouse initial any_event 24 2 click true false refl refl refl (omega arith)
      (omega arith) (omega arith) (omega arith)
