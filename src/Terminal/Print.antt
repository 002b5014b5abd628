-- ===== src/Terminal/Print.antt =====
-- `translate`, `print`, `execute` and `escDispatch` of src/terminal/Terminal.cpp.
use ar_term.Prelude.{
  ℕ, ◌-◌, true, false, ◌&&◌, ◌||◌, ltb, ◌==◌, if◌then◌else◌, Option, none, some, List, [], ◌∷◌,
  get_or, get_elem?,
}
use ar_term.Prelude.Int.{pos, negsuc}
use ar_term.CharWidth.{character_width}
use ar_term.Screen.{
  Screen, Line, cursor_line, put_cursor_line, move_cursor_relative, set_column, carriage_return,
}
use ar_term.Screen.Scroll.{index, reverse_index, next_line}
use ar_term.Screen.Edit.{fill_with}
use ar_term.Screen.Tabs.{next_tab_stop, set_tab_stop}
use ar_term.Screen.Write.{write_cell, write_character}
use ar_term.VtParser.{EscSequence}
use ar_term.Terminal.Modes.{
  Terminal, Outcome, active, on_active, bell_rang, save_cursor, restore_cursor, reset,
}

unfoldable pub dec_special_graphics : List ℕ
dec_special_graphics =
    0x00A0 ∷ 0x25C6 ∷ 0x2592 ∷ 0x2409 ∷ 0x240C ∷ 0x240D ∷ 0x240A ∷ 0x00B0 ∷ 0x00B1 ∷ 0x2424 ∷ 0x240B
    ∷ 0x2518 ∷ 0x2510 ∷ 0x250C ∷ 0x2514 ∷ 0x253C ∷ 0x23BA ∷ 0x23BB ∷ 0x2500 ∷ 0x23BC ∷ 0x23BD
    ∷ 0x251C ∷ 0x2524 ∷ 0x2534 ∷ 0x252C ∷ 0x2502 ∷ 0x2264 ∷ 0x2265 ∷ 0x03C0 ∷ 0x2260 ∷ 0x00A3
    ∷ 0x00B7 ∷ []

unfoldable pub translate : Terminal → ℕ → ℕ
translate t code_point =
    if (if t.active_charset == 0 then t.g0 else t.g1) == 1
    then (if ltb code_point 0x5F || ltb 0x7E code_point
        then code_point
        else get_or dec_special_graphics (code_point - 0x5F) 0)
    else code_point

-- The mark `glyph` for the cell at `column`: it shows in place of a space only.
unfoldable pub put_mark : ℕ → ℕ → Line → Option Line
unfolding write_cell
put_mark column glyph l = elim (get_elem? l column) [
  | none ↦ none
  | some cell ↦
      if cell.character == 0x20
      then write_cell l column (record cell { character = glyph })
      else some l
]

-- A character without a column of its own, on the active buffer.
unfoldable pub combine : ℕ → Screen → Option Screen
unfolding put_mark cursor_line put_cursor_line
combine glyph s =
    let column = if s.cursor.pending_wrap then s.cursor.column else s.cursor.column - 1 in
    if (s.cursor.pending_wrap || ltb 0 s.cursor.column) && (ltb glyph 0xFE00 || ltb 0xFE0F glyph)
    then (elim (put_mark column glyph (cursor_line s)) [
      | none ↦ none
      | some l ↦ some (put_cursor_line s l)
    ])
    else some s

-- What `print` does to the active buffer; `none` is a read or a write outside the line.
unfoldable pub print_on : ℕ → Terminal → Screen → Option Screen
unfolding character_width combine write_character
print_on glyph t s =
    let width = character_width glyph in
    if width == 0
    then combine glyph s
    else write_character s glyph width t.attributes t.modes.insert_mode t.modes.auto_wrap

unfoldable pub print : ℕ → Terminal → Option Terminal
unfolding translate print_on
print code_point t = elim (print_on (translate t code_point) t (active t)) [
  | none ↦ none
  | some s ↦ some (on_active (λ old. s) t)
]

-- The case BS.
unfoldable pub backspace : Screen → Screen
unfolding move_cursor_relative
backspace s =
    if s.cursor.pending_wrap
    then record s { cursor = record s.cursor { pending_wrap = false } }
    else if ltb 0 s.cursor.column
    then move_cursor_relative s (pos 0) (negsuc 0)
    else s

unfoldable pub execute : ℕ → Terminal → Outcome
unfolding backspace set_column next_tab_stop index carriage_return
execute control t =
    if control == 0x07
    then (t, bell_rang ∷ [])
    else if control == 0x08
    then (on_active backspace t, [])
    else if control == 0x09
    then (on_active (λ s. set_column s (pos (next_tab_stop s s.cursor.column))) t, [])
    else if control == 0x0A || control == 0x0B || control == 0x0C
    then (
      on_active
          (λ s.
            let moved = index s t.attributes in
            if t.modes.new_line_mode then carriage_return moved else moved)
          t,
      [],
    )
    else if control == 0x0D
    then (on_active carriage_return t, [])
    else if control == 0x0E
    then (record t { active_charset = 1 }, [])
    else if control == 0x0F
    then (record t { active_charset = 0 }, [])
    else (t, [])

-- `escDispatch` for a final byte other than those of a charset.
unfoldable pub escape : EscSequence → Terminal → Outcome
unfolding index next_line set_tab_stop reverse_index save_cursor restore_cursor fill_with reset
escape sequence t =
    if sequence.final == b'D'
    then (on_active (λ s. index s t.attributes) t, [])
    else if sequence.final == b'E'
    then (on_active (λ s. next_line s t.attributes) t, [])
    else if sequence.final == b'H'
    then (on_active (λ s. set_tab_stop s (pos s.cursor.column)) t, [])
    else if sequence.final == b'M'
    then (on_active (λ s. reverse_index s t.attributes) t, [])
    else if sequence.final == b'7'
    then (save_cursor t, [])
    else if sequence.final == b'8'
    then (if sequence.intermediate == b'#'
        then (on_active (λ s. fill_with s b'E' t.attributes) t, [])
        else (restore_cursor t, []))
    else if sequence.final == b'='
    then (record t { modes = record t.modes { application_keypad = true } }, [])
    else if sequence.final == b'>'
    then (record t { modes = record t.modes { application_keypad = false } }, [])
    else if sequence.final == b'c'
    then reset t
    else (t, [])

unfoldable pub esc_dispatch : EscSequence → Terminal → Outcome
unfolding escape
esc_dispatch sequence t =
    let chosen = if sequence.final == b'0' then 1 else 0 in
    if sequence.intermediate == b'('
    then (record t { g0 = chosen }, [])
    else if sequence.intermediate == b')'
    then (record t { g1 = chosen }, [])
    else escape sequence t
