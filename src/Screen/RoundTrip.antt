-- ===== src/Screen/RoundTrip.antt =====
-- Shrinking the window and growing it again.
use ar_term.Prelude.{
  ℕ, ◌+◌, ◌-◌, ◌≤◌, ◌<◌, ◌≡◌, refl, ap, sym, ◌∙◌, List, ◌++◌, arith, length, length-append,
}
use ar_term.Prelude.Int.{pos}
use ar_term.Screen.{Line, Screen}
use ar_term.Screen.Resize.{resize_columns, shrink, grow_by, resize_rows, finish_resize, resize}
use ar_term.Screen.Valid.{IsValid}
use ar_term.Screen.Height.{Holds, grow_rounds, max_pos, finish-Holds, shrink-Holds}

-- A change of height alone, to fewer and to more lines.
resize_fewer :
    (s : Screen) (rows : ℕ)
    → IsValid s
    → 0 < rows
    → rows < s.rows
    → resize s (pos s.columns) (pos rows) ≡ finish_resize rows (shrink rows s)
unfolding resize resize_columns resize_rows
resize_fewer s rows h lt fewer =
    rw (max_pos s.columns h.columns_pos, max_pos rows lt) (ground arith)

resize_more :
    (s : Screen) (columns rows : ℕ)
    → s.columns ≡ columns
    → 0 < columns
    → s.rows < rows
    → resize s (pos columns) (pos rows) ≡ finish_resize rows (grow_by (rows - s.rows) s)
unfolding resize resize_columns resize_rows
resize_more s columns rows e lt more =
    rw (max_pos columns lt, max_pos rows (omega arith)) (ground arith)

shrunk :
    (s : Screen) (gone kept : List Line)
    → IsValid s
    → s.lines ≡ gone ++ kept
    → 0 < length gone
    → 0 < length kept
    → length s.scrollback + length gone ≤ s.scrollback_limit
    → let t = resize s (pos s.columns) (pos (length kept)) in
      Holds t s.columns s.scrollback_limit (s.cursor.row - length gone) kept (s.scrollback ++ gone)
      × (t.rows ≡ length kept)
shrunk s gone kept h e some_gone some_kept room =
    let size : s.rows ≡ length gone + length kept =
      sym h.lines_size ∙ ap length e ∙ length-append gone kept in
    rw (resize_fewer s (length kept) h some_kept (omega arith)) (
      finish-Holds (length kept) (shrink (length kept) s) s.columns s.scrollback_limit
        (s.cursor.row - length gone) kept (s.scrollback ++ gone) refl (omega (arith, h.row_lt))
        (shrink-Holds s gone kept size some_gone room e))

-- Making the window lower and then as high as before, at the same width, restores every line of
-- the grid and of the scrollback, if the scrollback has room for the lines that leave the grid.
pub resize-resize :
    (s : Screen) (gone kept : List Line)
    → IsValid s
    → s.lines ≡ gone ++ kept
    → 0 < length gone
    → 0 < length kept
    → length s.scrollback + length gone ≤ s.scrollback_limit
    → let t = resize (resize s (pos s.columns) (pos (length kept))) (pos s.columns) (pos s.rows) in
      (t.lines ≡ s.lines) × (t.scrollback ≡ s.scrollback)
resize-resize s gone kept h e some_gone some_kept room =
    let (small, rows) = shrunk s gone kept h e some_gone some_kept room in
    let q = resize s (pos s.columns) (pos (length kept)) in
    let size : s.rows ≡ length gone + length kept =
      sym h.lines_size ∙ ap length e ∙ length-append gone kept in
    let deficit : s.rows - q.rows ≡ length gone = omega arith in
    let grown =
      grow_rounds (length gone) q s.columns s.scrollback_limit (s.cursor.row - length gone) kept
        s.scrollback gone refl small in
    let (final, _) =
      finish-Holds s.rows (grow_by (length gone) q) s.columns s.scrollback_limit
        (s.cursor.row - length gone + length gone) (gone ++ kept) s.scrollback
        (omega (arith, length-append gone kept)) (omega (arith, h.row_lt)) grown in
    rw (resize_more q s.columns s.rows small.columns_eq h.columns_pos (omega arith), deficit)
      (final.lines_eq ∙ sym e, final.history_eq)
