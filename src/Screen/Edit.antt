-- ===== src/Screen/Edit.antt =====
-- Erasing and character editing of src/terminal/Screen.cpp, and `reset` and `fillWith`.
use ar_term.Prelude.{
  ℕ, zero, suc, ◌+◌, ◌-◌, ◌^◌, ltb, if◌then◌else◌, false, [], ◌∷◌, ◌++◌, length, get_or, set, map,
  replicate, erase_idx, insert_idx, fill_range, pop_back, min,
}
use ar_term.Prelude.Int.{ℤ, clamp, max_ℤ}
use ar_term.Cell.{Attributes, Cell}
use ar_term.Screen.{
  Line, Screen, home, blank_cell, make_line, touch, cursor_line, put_cursor_line, set_line_wrapped,
  reset_scroll_region, reset_tab_stops,
}
use ar_term.Screen.Scroll.{iterate}

pub data EraseMode : Type 0 where
  to_end to_start all : EraseMode

-- `m_cursor.pendingWrap = false; ++m_revision;`
unfoldable pub settle : Screen → Screen
unfolding touch
settle s = touch (record s { cursor = record s.cursor { pending_wrap = false } })

unfoldable pub erased : EraseMode → ℕ → ℕ → Cell → Line → Line
erased to_end column columns filler l = fill_range column (length l) filler l
erased to_start column columns filler l = fill_range 0 (min (column + 1) columns) filler l
erased all column columns filler l = fill_range 0 (length l) filler l

unfoldable pub erase_in_line : Screen → EraseMode → Attributes → Screen
unfolding put_cursor_line set_line_wrapped settle
erase_in_line s mode fill = settle (
    set_line_wrapped
      (put_cursor_line s (erased mode s.cursor.column s.columns (blank_cell fill) (cursor_line s)))
      s.cursor.row false)

-- `std::fill` over the whole of a row, and its wrap mark
unfoldable pub clear_row : Cell → ℕ → Screen → Screen
unfolding set_line_wrapped
clear_row filler row s =
    set_line_wrapped
      (record s {
        lines =
            set s.lines row
              (fill_range 0 (length (get_or s.lines row [])) filler (get_or s.lines row []));
      })
      row false

-- `for (int row = first; row < first + count; ++row)`
unfoldable pub clear_rows : Cell → ℕ → ℕ → Screen → Screen
clear_rows filler first zero s = s
clear_rows filler first (suc count) s =
    clear_rows filler (first + 1) count (clear_row filler first s)

unfoldable pub erase_in_display : Screen → EraseMode → Attributes → Screen
unfolding settle
erase_in_display s to_end fill = settle (
    clear_rows (blank_cell fill) (s.cursor.row + 1) (s.rows - (s.cursor.row + 1))
      (erase_in_line s to_end fill))
erase_in_display s to_start fill =
    settle (erase_in_line (clear_rows (blank_cell fill) 0 s.cursor.row s) to_start fill)
erase_in_display s all fill = settle (clear_rows (blank_cell fill) 0 s.rows s)

-- `std::min(m_cursor.column + count, m_columns)`; a sum past the range of `int` is undefined
-- behaviour, and stands here for a range that ends before it begins.
unfoldable pub erased_end : (column count columns : ℕ) → ℕ
erased_end column count columns =
    if ltb (column + count) (2 ^ 31) then min (column + count) columns else 0

unfoldable pub erase_characters : Screen → ℤ → Attributes → Screen
unfolding put_cursor_line settle erased_end
erase_characters s count fill = settle (
    put_cursor_line s (
      fill_range s.cursor.column (erased_end s.cursor.column (max_ℤ 1 count) s.columns)
        (blank_cell fill) (cursor_line s)))

-- `target.insert(target.begin() + column, filler); target.pop_back();`
unfoldable pub insert_blank : ℕ → Cell → Line → Line
insert_blank column filler l = pop_back (insert_idx l column filler)

-- `target.erase(target.begin() + column); target.push_back(filler);`
unfoldable pub delete_cell : ℕ → Cell → Line → Line
delete_cell column filler l = erase_idx l column ++ filler ∷ []

unfoldable pub insert_characters : Screen → ℤ → Attributes → Screen
unfolding put_cursor_line settle
insert_characters s count fill = settle (
    put_cursor_line s (
      iterate (clamp count 1 (s.columns - s.cursor.column))
        (insert_blank s.cursor.column (blank_cell fill)) (cursor_line s)))

unfoldable pub delete_characters : Screen → ℤ → Attributes → Screen
unfolding put_cursor_line settle
delete_characters s count fill = settle (
    put_cursor_line s (
      iterate (clamp count 1 (s.columns - s.cursor.column))
        (delete_cell s.cursor.column (blank_cell fill)) (cursor_line s)))

unfoldable pub reset : Screen → Attributes → Screen
unfolding reset_scroll_region reset_tab_stops touch
reset s fill = touch (
    reset_tab_stops (
      reset_scroll_region (record s {
        lines = replicate s.rows (make_line s.columns fill);
        wrapped = replicate s.rows false;
        cursor = home;
      })))

unfoldable pub fill_with : Screen → ℕ → Attributes → Screen
unfolding touch
fill_with s code_point attributes =
    let cell : Cell = record { character = code_point; attributes = attributes } in
    touch (record s { lines = map (λ l. fill_range 0 (length l) cell l) s.lines })
