-- ===== src/Terminal/Handlers.antt =====
-- The handlers `print`, `execute` and `escDispatch` of src/terminal/Terminal.cpp keep the terminal
-- valid.
use ar_term.Prelude.{
  ℕ, ltb, ◌-◌, ◌≤◌, ◌<◌, ◌≡◌, refl, ◌∙◌, true, inl, Bool-cases, get_elem?-some, set, ◌||◌, inr,
  if_lem, arith, ◌==◌, if◌then◌else◌, Option, none, some, length, length-set,
}
use ar_term.Prelude.Int.{pos, negsuc}
use ar_term.CharWidth.{character_width}
use ar_term.Screen.{Screen, Line, cursor_line, put_cursor_line, carriage_return}
use ar_term.Screen.Scroll.{index}
use ar_term.Screen.Tabs.{set_tab_stop, next_tab_stop}
use ar_term.Screen.Write.{write_cell, write_character}
use ar_term.Screen.Valid.Edit.{cursor_line-HasWidth, put_cursor_line-IsValid}
use ar_term.Screen.Valid.Write.{write_character-IsValid}
use ar_term.Screen.Frame.{HasSize, Sized, Fits, write_character-Sized}
use ar_term.Screen.Fits.{
  move_cursor_relative-Fits, set_column-Fits, carriage_return-Fits, index-Fits, reverse_index-Fits,
  next_line-Fits, put_tab_stop-Fits, fill_with-Fits,
}
use ar_term.VtParser.{EscSequence}
use ar_term.Terminal.Modes.{Terminal, active, on_active}
use ar_term.Terminal.Print.{
  translate, put_mark, combine, print_on, print, backspace, execute, escape, esc_dispatch,
}
use ar_term.Terminal.Valid.{
  IsValid, Keeps, on_active-IsValid, save_cursor-IsValid, restore_cursor-IsValid, reset-IsValid,
}

put_mark-some :
    (column glyph : ℕ) (l : Line)
    → column < length l
    → (k : Line) × (put_mark column glyph l ≡ some k) × (length k ≡ length l)
unfolding put_mark write_cell
put_mark-some column glyph l lt =
    let inside : ltb column (length l) ≡ true = ground arith in
    let (cell, e) = get_elem?-some l column lt in
    elim (Bool-cases (cell.character == 0x20)) [
      | inl space ↦
          let marked = set l column (record cell { character = glyph }) in
          (
            marked,
            rw (e, space, inside, put_mark) refl,
            length-set l column (record cell { character = glyph }),
          )
      | inr other ↦ (l, rw (e, other, put_mark), refl)
    ]

-- A screen, and one that fits.
abbrev Prints : ℕ → ℕ → Option Screen → Type 0
Prints columns rows o = (s : Screen) × (o ≡ some s) × Fits columns rows s

module _ {columns rows : ℕ} where
  combine-Prints :
      (glyph : ℕ) (s : Screen) → Fits columns rows s → Prints columns rows (combine glyph s)
  unfolding combine put_cursor_line
  combine-Prints glyph s h =
      let column = if s.cursor.pending_wrap then s.cursor.column else s.cursor.column - 1 in
      let in_line : column < length (cursor_line s) =
        ground (arith, h.0.column_lt, cursor_line-HasWidth s h.0) in
      let (l, e, same) = put_mark-some column glyph (cursor_line s) in_line in
      let width = same ∙ cursor_line-HasWidth s h.0 in
      rw e (
        if_lem (Prints columns rows) _ _ _
          (put_cursor_line s l, refl, (put_cursor_line-IsValid s h.0 l width, h.1)) (s, refl, h))

  sized :
      (o : Option Screen) (s : Screen) → o ≡ some s → Sized columns rows o → HasSize columns rows s
  sized none s e h = absurd (ground (arith, e))
  sized (some t) s e h = ground (arith, e)

  print_on-Prints :
      (glyph : ℕ) (t : Terminal) (s : Screen)
      → Fits columns rows s
      → 2 ≤ columns
      → Prints columns rows (print_on glyph t s)
  unfolding print_on
  print_on-Prints glyph t s h room =
      let width = character_width glyph in
      let o = write_character s glyph width t.attributes t.modes.insert_mode t.modes.auto_wrap in
      let (q, e, valid) =
        write_character-IsValid s glyph width t.attributes t.modes.insert_mode t.modes.auto_wrap h.0
          (inr (omega (arith, h.1.0))) in
      let size = sized o q e (
        write_character-Sized columns rows s glyph width t.attributes t.modes.insert_mode
          t.modes.auto_wrap h.1) in
      if_lem (Prints columns rows) (width == 0) _ _ (combine-Prints glyph s h) (q, e, (valid, size))

  backspace-Fits : (s : Screen) → Fits columns rows s → Fits columns rows (backspace s)
  unfolding backspace
  backspace-Fits s h = ground (arith, h, move_cursor_relative-Fits s (pos 0) (negsuc 0) h)

pub active-Fits :
    {columns rows : ℕ} (t : Terminal) → IsValid columns rows t → Fits columns rows (active t)
active-Fits {columns} {rows} t h =
    if_lem (Fits columns rows) t.is_alternate_active _ _ h.alternate_fits h.normal_fits

-- On a valid terminal of at least two columns, `print` of any code point has a result, and leaves a
-- valid terminal.
pub print-IsValid :
    {columns rows : ℕ} (t : Terminal) (code_point : ℕ)
    → IsValid columns rows t
    → 2 ≤ columns
    → (u : Terminal) × (print code_point t ≡ some u) × IsValid columns rows u
unfolding print
print-IsValid {columns} {rows} t code_point h room =
    let (s, e, k) = print_on-Prints (translate t code_point) t (active t) (active-Fits t h) room in
    rw (e, print) (on_active (λ old. s) t, refl, on_active-IsValid (λ old. s) t (λ old valid. k) h)

-- A control character keeps a valid terminal valid.
pub execute-IsValid :
    {columns rows : ℕ} (t : Terminal) (control : ℕ)
    → IsValid columns rows t
    → IsValid columns rows (execute control t).0
unfolding execute
execute-IsValid {columns} {rows} t control h = if_lem (Keeps columns rows) (control == 0x07) _ _ h (
    if_lem (Keeps columns rows) (control == 0x08) _ _ (on_active-IsValid _ t backspace-Fits h) (
      if_lem (Keeps columns rows) (control == 0x09) _ _
        (on_active-IsValid _ t (λ s k. set_column-Fits s (pos (next_tab_stop s s.cursor.column)) k)
          h)
        (if_lem (Keeps columns rows) (control == 0x0A || control == 0x0B || control == 0x0C) _ _
          (on_active-IsValid _ t line_feed h)
          (if_lem (Keeps columns rows) (control == 0x0D) _ _
            (on_active-IsValid _ t carriage_return-Fits h)
            (if_lem (Keeps columns rows) (control == 0x0E) _ _ (ground (arith, h))
              (if_lem (Keeps columns rows) (control == 0x0F) _ _ (ground (arith, h)) h))))))
  where
    line_feed :
        (s : Screen)
        → Fits columns rows s
        → Fits columns rows (
            if t.modes.new_line_mode
            then carriage_return (index s t.attributes)
            else index s t.attributes)
    line_feed s k =
        let moved = index-Fits t.attributes s k in
        if_lem (Fits columns rows) t.modes.new_line_mode _ _ (carriage_return-Fits _ moved) moved

escape-IsValid :
    {columns rows : ℕ} (sequence : EscSequence) (t : Terminal)
    → IsValid columns rows t
    → IsValid columns rows (escape sequence t).0
unfolding escape set_tab_stop
escape-IsValid {columns} {rows} sequence t h =
    if_lem (Keeps columns rows) (sequence.final == b'D') _ _
      (on_active-IsValid _ t (index-Fits t.attributes) h)
      (if_lem (Keeps columns rows) (sequence.final == b'E') _ _
        (on_active-IsValid _ t (next_line-Fits t.attributes) h)
        (if_lem (Keeps columns rows) (sequence.final == b'H') _ _
          (on_active-IsValid _ t (λ s k. put_tab_stop-Fits s (pos s.cursor.column) true k) h)
          (if_lem (Keeps columns rows) (sequence.final == b'M') _ _
            (on_active-IsValid _ t (reverse_index-Fits t.attributes) h)
            (if_lem (Keeps columns rows) (sequence.final == b'7') _ _ (save_cursor-IsValid t h) (
              if_lem (Keeps columns rows) (sequence.final == b'8') _ _
                (if_lem (Keeps columns rows) (sequence.intermediate == b'#') _ _
                  (on_active-IsValid _ t (λ s k. fill_with-Fits s b'E' t.attributes k) h)
                  (restore_cursor-IsValid t h))
                (if_lem (Keeps columns rows) (sequence.final == b'=') _ _ (ground (arith, h)) (
                  if_lem (Keeps columns rows) (sequence.final == b'>') _ _ (ground (arith, h)) (
                    if_lem (Keeps columns rows) (sequence.final == b'c') _ _ (reset-IsValid t h)
                      h))))))))

-- An escape sequence keeps a valid terminal valid.
pub esc_dispatch-IsValid :
    {columns rows : ℕ} (t : Terminal) (sequence : EscSequence)
    → IsValid columns rows t
    → IsValid columns rows (esc_dispatch sequence t).0
unfolding esc_dispatch
esc_dispatch-IsValid {columns} {rows} t sequence h =
    if_lem (Keeps columns rows) (sequence.intermediate == b'(') _ _ (ground (arith, h)) (
      if_lem (Keeps columns rows) (sequence.intermediate == b')') _ _ (ground (arith, h))
        (escape-IsValid sequence t h))
