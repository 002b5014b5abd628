-- ===== src/Mouse.antt =====
-- The mouse reports of src/terminal/TerminalWidget.cpp: `sendMouseEvent` and `sendWheelEvent`. Where
-- the pointer stands on the grid, which the pixels decide, is given by its row and column, counted
-- from 1, and the row is any integer.
pub mod Reading
use ar_term.Prelude.{
  ℕ, zero, suc, ◌+◌, ◌-◌, ◌%◌, Bool, true, false, not, ◌&&◌, ◌||◌, ltb, ◌==◌, if◌then◌else◌, List,
  [], ◌∷◌, ◌++◌,
}
use ar_term.Prelude.Int.{ℤ, pos, negsuc, ltb_ℤ}
use ar_term.KeyEncoder.{Modifiers}
use ar_term.VtParser.Numbers.{decimal}
use ar_term.Terminal.Csi.{number}
use ar_term.Terminal.Modes.{
  MouseTracking, tracking_off, x10, normal_tracking, button_event, any_event, MouseEncoding,
  default_encoding, utf8, sgr, urxvt,
}

-- What the switch over the button, or over the buttons held, tells apart.
pub data MouseButton : Type 0 where
  left_button middle_button right_button other_button : MouseButton

pub record MouseEvent : Type 0 where
  pub button : MouseButton
  pub modifiers : Modifiers
  pub column : ℕ
  pub row : ℤ

-- The event is not handled, it is handled without a report, or it is reported.
pub data MouseResult : Type 0 where
  passed swallowed : MouseResult
  sent : (bytes : List ℕ) → MouseResult

abbrev pub button_number : MouseButton → ℕ
button_number left_button = 0
button_number middle_button = 1
button_number right_button = 2
button_number other_button = 3

unfoldable pub button_code : MouseEvent → (motion : Bool) → ℕ
button_code event motion =
    button_number event.button
    + (if motion then 32 else 0)
    + (if event.modifiers.shift then 4 else 0)
    + (if event.modifiers.alt then 8 else 0)
    + (if event.modifiers.control then 16 else 0)

-- `static_cast<char>` of an `int`
unfoldable to_byte : ℤ → ℕ
to_byte (pos n) = n % 256
to_byte (negsuc n) = 255 - n % 256

-- `32 + row`
abbrev legacy : ℤ → ℤ
legacy (pos n) = pos (32 + n)
legacy (negsuc n) = if ltb n 32 then pos (31 - n) else negsuc (n - 32)

-- ESC [ <
unfoldable pub sgr_sequence : (code column : ℕ) → (row : ℤ) → (final : ℕ) → List ℕ
unfolding decimal number
sgr_sequence code column row final =
    (0x1B ∷ b'[' ∷ b'<' ∷ [])
    ++ ((decimal code ++ b';' ∷ [])
        ++ ((decimal column ++ b';' ∷ []) ++ (number row ++ final ∷ [])))

unfoldable urxvt_sequence : (code column : ℕ) → (row : ℤ) → List ℕ
unfolding decimal number
urxvt_sequence code column row =
    (0x1B ∷ b'[' ∷ [])
    ++ ((decimal (code + 32) ++ b';' ∷ [])
        ++ ((decimal column ++ b';' ∷ []) ++ (number row ++ b'M' ∷ [])))

unfoldable legacy_sequence : (code column : ℕ) → (row : ℤ) → List ℕ
unfolding to_byte
legacy_sequence code column row =
    0x1B ∷ b'[' ∷ b'M' ∷ (32 + code) % 256 ∷ (32 + column) % 256 ∷ to_byte (legacy row) ∷ []

-- The legacy encoding cannot address past column 223.
abbrev is_far : ℕ → ℤ → Bool
is_far column row = ltb 223 column || ltb_ℤ (pos 223) row

-- The tracking mode wants events of this kind.
unfoldable pub is_wanted : MouseTracking → (release motion : Bool) → Bool
is_wanted tracking_off release motion = false
is_wanted x10 release motion = not motion && not release
is_wanted normal_tracking release motion = not motion
is_wanted button_event release motion = true
is_wanted any_event release motion = true

unfoldable pub encode_mouse_event :
    MouseEncoding → MouseEvent → (release motion : Bool) → MouseResult
unfolding button_code sgr_sequence urxvt_sequence legacy_sequence
encode_mouse_event sgr event release motion = sent (
    sgr_sequence (button_code event motion) event.column event.row (if release then b'm' else b'M'))
encode_mouse_event urxvt event release motion =
    sent (urxvt_sequence (button_code event motion) event.column event.row)
encode_mouse_event _ event release motion =
    if is_far event.column event.row
    then swallowed
    else sent (
        legacy_sequence
          (if release then 3 + (if motion then 32 else 0) else button_code event motion)
          event.column event.row)

unfoldable pub send_mouse_event :
    MouseTracking → MouseEncoding → (rows : ℕ) → MouseEvent → (release motion : Bool) → MouseResult
unfolding is_wanted encode_mouse_event
send_mouse_event tracking encoding rows event release motion =
    if event.modifiers.shift || not (is_wanted tracking release motion)
    then passed
    else if ltb_ℤ event.row (pos 1) || ltb_ℤ (pos rows) event.row
    then swallowed
    else encode_mouse_event encoding event release motion

abbrev is_sgr : MouseEncoding → Bool
is_sgr sgr = true
is_sgr _ = false

-- The loop over the steps of the wheel.
unfoldable wheel_steps : MouseEncoding → (steps code column : ℕ) → (row : ℤ) → List ℕ
unfolding sgr_sequence legacy_sequence
wheel_steps encoding zero code column row = []
wheel_steps encoding (suc steps) code column row =
    let rest = wheel_steps encoding steps code column row in
    if is_sgr encoding
    then sgr_sequence code column row b'M' ++ rest
    else if is_far column row
    then []
    else legacy_sequence code column row ++ rest

abbrev sent_or_passed : List ℕ → MouseResult
sent_or_passed [] = passed
sent_or_passed bytes = sent bytes

abbrev is_tracking : MouseTracking → Bool
is_tracking tracking_off = false
is_tracking _ = true

-- `steps` is the angle by 120, without its sign.
unfoldable send_wheel_event :
    MouseTracking → MouseEncoding → (steps : ℕ) → (up : Bool) → MouseEvent → MouseResult
unfolding wheel_steps
send_wheel_event tracking encoding steps up event =
    if not (is_tracking tracking) || event.modifiers.shift
    then passed
    else sent_or_passed (wheel_steps encoding steps (if up then 64 else 65) event.column event.row)
