-- ===== src/Terminal/Buffers.antt =====
-- The switch between the two buffers of src/terminal/Terminal.cpp and the count that tells the
-- widget that something changed.
use ar_term.Prelude.{ℕ, ◌^◌, ◌+◌, ◌-◌, ◌<◌, ◌≡◌, ◌∙◌, true, false, arith}
use ar_term.Prelude.Int.{clamp_eq}
use ar_term.Screen.{move_cursor, touch}
use ar_term.Screen.Scroll.{clear_scrollback}
use ar_term.Screen.Edit as Edit
use ar_term.Terminal.Modes.{
  Terminal, active, revision, save_cursor, restore_from, restore_cursor, use_alternate_screen,
  reset,
}
use ar_term.Terminal.SetMode.{switch_and_clear}
use ar_term.Terminal.Valid.{IsValid}

-- What a program on the alternate screen may have done: the normal buffer and the cursor saved for
-- it are as they were, all else is free.
pub record IsUntouched (t u : Terminal) : Type 0 where
  pub normal_same : u.normal ≡ t.normal
  pub saved_same : u.saved_cursor ≡ t.saved_cursor
  pub still_alternate : u.modes.alternate_screen ≡ true

-- Entering the alternate screen by mode 1049 and leaving it again, whatever a program did there
-- without touching the normal buffer, shows the normal buffer with the lines and the scrollback
-- that it had, the cursor where it was, and the attributes, the origin mode and the charset of then.
pub switch_and_clear-switch_and_clear :
    {columns rows : ℕ} (t u : Terminal)
    → IsValid columns rows t
    → t.modes.alternate_screen ≡ false
    → IsUntouched (switch_and_clear true t).0 u
    → let r = (switch_and_clear false u).0 in
      ((active r).lines ≡ t.normal.lines)
      × ((active r).scrollback ≡ t.normal.scrollback)
      × ((active r).cursor.row ≡ t.normal.cursor.row)
      × ((active r).cursor.column ≡ t.normal.cursor.column)
      × (r.attributes ≡ t.attributes)
      × (r.modes.origin_mode ≡ t.modes.origin_mode)
      × (r.active_charset ≡ t.active_charset)
unfolding switch_and_clear use_alternate_screen save_cursor restore_cursor restore_from move_cursor
switch_and_clear-switch_and_clear {columns} {rows} t u h off same =
    let k = h.normal_fits.0 in
    let row_eq =
      clamp_eq t.normal.cursor.row 0 (t.normal.rows - 1) (omega arith) (omega (arith, k.row_lt)) in
    let column_eq =
      clamp_eq t.normal.cursor.column 0 (t.normal.columns - 1) (omega arith)
        (omega (arith, k.column_lt)) in
    let first : t.is_alternate_active ≡ false = h.agrees ∙ off in
    let here : u.normal ≡ t.normal = ground (arith, same.normal_same) in
    let saved : u.saved_cursor ≡ (save_cursor t).saved_cursor = ground (arith, same.saved_same) in
    ground (arith, row_eq, column_eq)

-- A reset from the alternate screen can lower the count: it goes back to the normal buffer's, which
-- the base does not make up for. Where the normal buffer's count is behind the alternate one's by
-- more than two, and the sums are in the range of the 64 bits, the count falls.
pub revision-reset :
    (t : Terminal)
    → t.is_alternate_active ≡ true
    → t.normal.revision + 2 < t.alternate.revision
    → t.alternate.revision + t.revision_base < 2 ^ 64
    → revision (reset t).0 < revision t
unfolding reset Edit.reset clear_scrollback touch
revision-reset t second lt in_range = ground arith
