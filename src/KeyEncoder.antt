-- ===== src/KeyEncoder.antt =====
-- src/terminal/KeyEncoder.hpp and src/terminal/KeyEncoder.cpp: what a key press or a paste sends.
-- A key is one of those the source names, a letter by its distance from `Qt::Key_A`. A text is the
-- list of its UTF-16 units; `toUtf8`, `replace` and `remove` of Qt are parameters.
pub mod Reading
pub mod Paste
use ar_term.Prelude.{
  ℕ, suc, ◌+◌, ◌≤◌, Bool, true, false, not, ◌&&◌, ◌||◌, ltb, ◌==◌, if◌then◌else◌, Option, none,
  some, List, [], ◌∷◌, ◌++◌,
}
use ar_term.VtParser.Numbers.{decimal}

pub record Modifiers : Type 0 where
  pub shift : Bool
  pub alt : Bool
  pub control : Bool
  pub meta : Bool

pub record Options : Type 0 where
  pub application_cursor_keys : Bool
  pub application_keypad : Bool
  pub new_line_mode : Bool
  pub option_is_meta : Bool
  pub backspace_sends_delete : Bool

pub data Key : Type 0 where
  key_up key_down key_right key_left key_home key_end : Key
  key_insert key_delete key_page_up key_page_down : Key
  key_f1 key_f2 key_f3 key_f4 key_f5 key_f6 key_f7 key_f8 key_f9 key_f10 key_f11 key_f12 : Key
  key_return key_enter key_backspace key_tab key_backtab key_escape : Key
  key_shift key_control key_meta key_alt key_alt_gr key_caps_lock key_num_lock key_scroll_lock : Key
  key_letter : (distance : ℕ) → Key
  key_space key_2 key_at key_bracket_left key_backslash key_bracket_right key_ascii_circum : Key
  key_6 key_underscore key_minus key_question key_other : Key

-- What the code reads of a `QKeyEvent`.
pub record KeyEvent : Type 0 where
  pub key : Key
  pub modifiers : Modifiers
  pub text : List ℕ

abbrev has_control : Modifiers → Bool
has_control modifiers = modifiers.control

-- The bits are distinct, so `|=` adds.
unfoldable pub modifier_parameter : Modifiers → ℕ
modifier_parameter modifiers =
    let value =
      (if modifiers.shift then 1 else 0)
      + (if modifiers.alt then 2 else 0)
      + (if has_control modifiers then 4 else 0)
      + (if modifiers.meta then 8 else 0) in
    if value == 0 then 0 else value + 1

unfoldable pub tilde_sequence : ℕ → ℕ → List ℕ
unfolding decimal
tilde_sequence number modifier =
    if modifier == 0
    then (0x1B ∷ b'[' ∷ []) ++ (decimal number ++ b'~' ∷ [])
    else (0x1B ∷ b'[' ∷ []) ++ (decimal number ++ b';' ∷ []) ++ (decimal modifier ++ b'~' ∷ [])

unfoldable pub cursor_sequence : ℕ → ℕ → Bool → List ℕ
unfolding decimal
cursor_sequence final modifier application_mode =
    if not (modifier == 0)
    then (0x1B ∷ b'[' ∷ b'1' ∷ b';' ∷ []) ++ (decimal modifier ++ final ∷ [])
    else 0x1B ∷ (if application_mode then b'O' else b'[') ∷ final ∷ []

-- The cases of the switch that send a tilde sequence, and those that send a cursor sequence.
unfoldable pub tilde_number : Key → Option ℕ
tilde_number key_insert = some 2
tilde_number key_delete = some 3
tilde_number key_page_up = some 5
tilde_number key_page_down = some 6
tilde_number key_f5 = some 15
tilde_number key_f6 = some 17
tilde_number key_f7 = some 18
tilde_number key_f8 = some 19
tilde_number key_f9 = some 20
tilde_number key_f10 = some 21
tilde_number key_f11 = some 23
tilde_number key_f12 = some 24
tilde_number _ = none

unfoldable pub cursor_final : Key → Option ℕ
cursor_final key_up = some b'A'
cursor_final key_down = some b'B'
cursor_final key_right = some b'C'
cursor_final key_left = some b'D'
cursor_final key_home = some b'H'
cursor_final key_end = some b'F'
cursor_final _ = none

unfoldable pub function_final : Key → Option ℕ
function_final key_f1 = some b'P'
function_final key_f2 = some b'Q'
function_final key_f3 = some b'R'
function_final key_f4 = some b'S'
function_final _ = none

-- ESC before what a key sends, where Alt is held and Option is Meta.
abbrev meta_prefix : Modifiers → Options → List ℕ
meta_prefix modifiers options = if modifiers.alt && options.option_is_meta then 0x1B ∷ [] else []

-- `options.backspaceSendsDelete != hasControl(modifiers)`
unfoldable pub backspace : Modifiers → Options → List ℕ
backspace modifiers options =
    let send_delete =
      if has_control modifiers
      then not options.backspace_sends_delete
      else options.backspace_sends_delete in
    meta_prefix modifiers options ++ (if send_delete then 0x7F else 0x08) ∷ []

-- The other cases of the first switch; `none` is its `break`.
unfoldable plain_key : Key → Modifiers → Options → Option (List ℕ)
unfolding backspace
plain_key key_return modifiers options =
    some (if options.new_line_mode then 0x0D ∷ 0x0A ∷ [] else 0x0D ∷ [])
plain_key key_enter modifiers options =
    some (if options.new_line_mode then 0x0D ∷ 0x0A ∷ [] else 0x0D ∷ [])
plain_key key_backspace modifiers options = some (backspace modifiers options)
plain_key key_tab modifiers options = some (0x09 ∷ [])
plain_key key_backtab modifiers options = some (0x1B ∷ b'[' ∷ b'Z' ∷ [])
plain_key key_escape modifiers options = some (0x1B ∷ [])
plain_key key_shift modifiers options = some []
plain_key key_control modifiers options = some []
plain_key key_meta modifiers options = some []
plain_key key_alt modifiers options = some []
plain_key key_alt_gr modifiers options = some []
plain_key key_caps_lock modifiers options = some []
plain_key key_num_lock modifiers options = some []
plain_key key_scroll_lock modifiers options = some []
plain_key _ modifiers options = none

-- The control code of a key with Ctrl; a letter is one of 26.
unfoldable control_code : Key → Modifiers → Options → Option (List ℕ)
control_code (key_letter n) modifiers options =
    if ltb n 26 then some (meta_prefix modifiers options ++ (n + 1) ∷ []) else none
control_code key_space modifiers options = some (0x00 ∷ [])
control_code key_2 modifiers options = some (0x00 ∷ [])
control_code key_at modifiers options = some (0x00 ∷ [])
control_code key_bracket_left modifiers options = some (0x1B ∷ [])
control_code key_backslash modifiers options = some (0x1C ∷ [])
control_code key_bracket_right modifiers options = some (0x1D ∷ [])
control_code key_ascii_circum modifiers options = some (0x1E ∷ [])
control_code key_6 modifiers options = some (0x1E ∷ [])
control_code key_underscore modifiers options = some (0x1F ∷ [])
control_code key_minus modifiers options = some (0x1F ∷ [])
control_code key_question modifiers options = some (0x7F ∷ [])
control_code _ modifiers options = none

abbrev pub is_empty : List ℕ → Bool
is_empty [] = true
is_empty _ = false

-- The keys of the menu on macOS.
abbrev pub is_reserved : (is_macos : Bool) → Modifiers → Bool
is_reserved is_macos modifiers =
    is_macos && modifiers.meta && not modifiers.control && not modifiers.alt

module _ (is_macos : Bool) (to_utf8 : List ℕ → List ℕ) where
  unfoldable text_key : KeyEvent → Options → List ℕ
  text_key event options =
      if is_empty event.text then [] else meta_prefix event.modifiers options ++ to_utf8 event.text

  -- Behind the first switch.
  unfoldable other_key : KeyEvent → Options → List ℕ
  unfolding control_code text_key
  other_key event options =
      if has_control event.modifiers
      then elim (control_code event.key event.modifiers options) [
        | some bytes ↦ bytes
        | none ↦ text_key event options
      ]
      else text_key event options

  -- The first switch.
  unfoldable pub switch_key : KeyEvent → Options → List ℕ
  unfolding modifier_parameter cursor_final cursor_sequence tilde_number tilde_sequence
      function_final plain_key other_key
  switch_key event options =
      let modifier = modifier_parameter event.modifiers in
      elim (cursor_final event.key) [
        | some final ↦ cursor_sequence final modifier options.application_cursor_keys
        | none ↦ elim (tilde_number event.key) [
          | some number ↦ tilde_sequence number modifier
          | none ↦ elim (function_final event.key) [
            | some final ↦ cursor_sequence final modifier true
            | none ↦ elim (plain_key event.key event.modifiers options) [
              | some bytes ↦ bytes
              | none ↦ other_key event options
            ]
          ]
        ]
      ]

  unfoldable pub encode : KeyEvent → Options → List ℕ
  unfolding switch_key
  encode event options =
      if is_reserved is_macos event.modifiers then [] else switch_key event options
