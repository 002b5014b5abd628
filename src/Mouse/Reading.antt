-- ===== src/Mouse/Reading.antt =====
-- A mouse report of src/terminal/TerminalWidget.cpp, read back by the program that asked for it.
use ar_term.Prelude.{
  ℕ, ◌/◌, ◌%◌, ◌≤◌, ◌≡◌, refl, sym, subst, ◌∙◌, ap, Bool, true, false, ◌==◌, if◌then◌else◌, arith,
  ltb, some, List, [], ◌∷◌, ◌++◌,
}
use ar_term.Prelude.Int.{pos, pos_part}
use ar_term.VtParser.{CsiSequence, VtParser, csi_dispatch, is_final, parameter}
use ar_term.VtParser.Machine.{parse, unhook}
use ar_term.VtParser.Numbers.{decimal}
use ar_term.VtParser.Csi.{sequence_of, render, field, flatten, parse-csi}
use ar_term.Terminal.Csi.{number}
use ar_term.Terminal.Modes.{MouseTracking, sgr}
use ar_term.Mouse.{
  MouseButton, left_button, middle_button, right_button, other_button, MouseEvent, sent,
  button_number, button_code, sgr_sequence, is_wanted, encode_mouse_event, send_mouse_event,
}

sgr-render :
    (code column row final : ℕ)
    → sgr_sequence code column (pos row) final
      ≡ (0x1B ∷ b'[' ∷ b'<' ∷ []) ++ (render (some code ∷ some column ∷ []) row ++ final ∷ [])
unfolding sgr_sequence render field number
sgr-render code column row final =
    ap (λ xs. 0x1B ∷ b'[' ∷ b'<' ∷ xs)
      (ap (λ xs. (decimal code ++ b';' ∷ []) ++ xs)
          (flatten (decimal column) (decimal row) b';' final)
        ∙ regroup (decimal code) (decimal column ++ b';' ∷ decimal row) final)
  where
    regroup :
        (xs ys : List ℕ) (last : ℕ)
        → (xs ++ b';' ∷ []) ++ (ys ++ last ∷ []) ≡ (xs ++ b';' ∷ ys) ++ last ∷ []
    regroup xs ys last = flatten xs ys b';' last

-- What xterm documents of the lowest two bits of the first number.
pub button_of : ℕ → MouseButton
button_of bits =
    if bits == 0
    then left_button
    else if bits == 1
    then middle_button
    else if bits == 2
    then right_button
    else other_button

button_of-button_number : (button : MouseButton) → button_of (button_number button) ≡ button
unfolding button_of
button_of-button_number left_button = refl
button_of-button_number middle_button = refl
button_of-button_number right_button = refl
button_of-button_number other_button = refl

-- What xterm documents of the first number: the button in the lowest two bits, then 4 for Shift, 8 for
-- Meta, 16 for Ctrl and 32 for motion.
pub record Reading (code : ℕ) (event : MouseEvent) (motion : Bool) : Type 0 where
  pub button_read : button_of (code % 4) ≡ event.button
  pub shift_read : (code / 4 % 2 == 1) ≡ event.modifiers.shift
  pub alt_read : (code / 8 % 2 == 1) ≡ event.modifiers.alt
  pub control_read : (code / 16 % 2 == 1) ≡ event.modifiers.control
  pub motion_read : (code / 32 % 2 == 1) ≡ motion

lowest :
    (event : MouseEvent) (motion : Bool) → button_code event motion % 4 ≡ button_number event.button
unfolding button_code
lowest event motion = ground arith

button_code-Reading :
    (event : MouseEvent) (motion : Bool) → Reading (button_code event motion) event motion
unfolding button_code
button_code-Reading event motion = record {
  button_read = ap button_of (lowest event motion) ∙ button_of-button_number event.button;
  shift_read = ground arith;
  alt_read = ground arith;
  control_read = ground arith;
  motion_read = ground arith;
}

button_code-le : (event : MouseEvent) (motion : Bool) → button_code event motion ≤ 999999
unfolding button_code
button_code-le event motion = ground arith

-- From any state of a parser, the bytes are one control sequence with the marker '<', that final byte and
-- three numbers: the code, which tells the button, the modifiers and the motion, the column and the row.
abbrev pub TellsMouse :
    VtParser → List ℕ → MouseEvent → (release motion : Bool) → (row : ℕ) → Type 0
TellsMouse p bytes event release motion row =
    (q : CsiSequence) × ((parse p bytes).1 ≡ unhook p.state ++ csi_dispatch q ∷ [])
    × (q.private_marker ≡ b'<')
    × (q.final ≡ (if release then b'm' else b'M'))
    × Reading (pos_part (parameter q 0 (pos 0))) event motion
    × (pos_part (parameter q 1 (pos 0)) ≡ event.column)
    × (pos_part (parameter q 2 (pos 0)) ≡ row)

final_byte : (release : Bool) → is_final (if release then b'm' else b'M') ≡ true
unfolding is_final
final_byte true = refl
final_byte false = refl

sgr-TellsMouse :
    (p : VtParser) (event : MouseEvent) (release motion : Bool) (row : ℕ)
    → event.column ≤ 999999
    → row ≤ 999999
    → TellsMouse p
        (sgr_sequence
          (button_code event motion)
          event.column
          (pos row)
          (if release then b'm' else b'M'))
        event
        release
        motion
        row
unfolding parameter
sgr-TellsMouse p event release motion row column_le row_le =
    let code = button_code event motion in
    let final : ℕ = if release then b'm' else b'M' in
    let q : CsiSequence = record (sequence_of b'<' (pos code ∷ pos event.column ∷ pos row ∷ [])) {
      final = final;
    } in
    let code_back : pos_part (parameter q 0 (pos 0)) ≡ code = ground arith in
    (
      q,
      rw (sgr-render code event.column row final)
          (parse-csi p (some b'<') (some code ∷ some event.column ∷ []) row final
            (omega arith, omega arith) (omega arith) (button_code-le event motion, (column_le, tt))
            row_le (final_byte release)).0,
      refl,
      refl,
      subst (λ n. Reading n event motion) (sym code_back) (button_code-Reading event motion),
      ground arith,
      ground arith,
    )

-- With Shift up and the pointer on the grid, of at most 999999 columns and rows, an event of a kind that the tracking mode
-- wants is sent, and in the SGR encoding the program that reads it can tell the button, the
-- modifiers, whether it is a motion and whether a release, the column and the row.
pub send_mouse_event-TellsMouse :
    (p : VtParser) (tracking : MouseTracking) (rows row : ℕ) (event : MouseEvent)
    (release motion : Bool)
    → event.modifiers.shift ≡ false
    → is_wanted tracking release motion ≡ true
    → event.row ≡ pos row
    → 1 ≤ row
    → row ≤ rows
    → rows ≤ 999999
    → event.column ≤ 999999
    → (bytes : List ℕ) × (send_mouse_event tracking sgr rows event release motion ≡ sent bytes)
      × TellsMouse p bytes event release motion row
unfolding send_mouse_event encode_mouse_event
send_mouse_event-TellsMouse p tracking rows row event release motion no_shift wanted here positive
      inside le column_le =
    let above : ltb row 1 ≡ false = ground arith in
    let below : ltb rows row ≡ false = ground arith in
    (
      sgr_sequence (button_code event motion) event.column (pos row)
          (if release then b'm' else b'M'),
      ground (arith, no_shift, wanted, here, above, below),
      sgr-TellsMouse p event release motion row column_le (omega arith),
    )
