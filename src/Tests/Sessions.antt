-- ===== src/Tests/Sessions.antt =====
-- The theorems on whole sessions of src/terminal/Terminal.cpp, on a small emulator.
use ar_term.Prelude.{ℕ, refl, false, arith, none, some, List, [], ◌∷◌}
use ar_term.Prelude.Int.{pos, max_ℤ}
use ar_term.VtParser.{initial, CsiSequence, parameter}
use ar_term.VtParser.Csi.{sequence_of}
use ar_term.Terminal.Modes.{start}
use ar_term.Terminal.Osc.{QtText}
use ar_term.Terminal.Valid.{start-IsValid}
use ar_term.Terminal.Receive.{Emulator, new_emulator}
use ar_term.Terminal.Reports.{ReportsBack, report_device_status-csi_dispatch}

abbrev text : QtText
text = record {
  to_int = λ digits. some (pos 2);
  from_utf8 = λ bytes. bytes;
  is_non_character = λ unit. false;
  from_base64 = λ bytes. none;
}

abbrev emulator : Emulator
emulator = new_emulator (pos 4) (pos 3)

-- A title, a wide character and an escape to the alternate screen.
abbrev bytes : List ℕ
bytes =
    0x1B ∷ b']' ∷ b'2' ∷ b';' ∷ b'a' ∷ 0x07 ∷ 0xE6 ∷ 0x9C ∷ 0xAC ∷ 0x1B ∷ b'[' ∷ b'?' ∷ b'4' ∷ b'7'
    ∷ b'h' ∷ []

abbrev where_is_the_cursor : CsiSequence
where_is_the_cursor = sequence_of 0 (pos 6 ∷ [])

report_device_status-csi_dispatch_example :
    ReportsBack initial where_is_the_cursor (start (pos 4) (pos 3))
unfolding start max_ℤ parameter
report_device_status-csi_dispatch_example =
    report_device_status-csi_dispatch initial where_is_the_cursor (start (pos 4) (pos 3))
      (start-IsValid (pos 4) (pos 3)) (omega arith) (omega arith) (λ e. absurd (ground (arith, e)))
      refl
