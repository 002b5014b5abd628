-- ===== src/Screen/Valid.antt =====
-- The representation invariant of `Screen`, on which its unchecked vector accesses rest, and the
-- operations on the cursor, the region, the scrollback and the lines.
pub mod Scroll
pub mod Edit
pub mod Write
pub mod Resize
use ar_term.Prelude.{
  ℕ, zero, suc, ◌+◌, ◌-◌, ◌≤◌, ◌<◌, ◌≡◌, refl, Bool, true, false, inl, inr, List, [], ◌∷◌, ◌++◌,
  arith, ltb, length, All, All-append, All-replicate, All-erase_idx, All-insert_idx, All-set,
  All-get_or, length-append, length-replicate, length-erase_idx, length-insert_idx, length-set,
  get_or, erase_idx, insert_idx, set, replicate, Bool-cases,
}
use ar_term.Prelude.Int.{ℤ, pos, negsuc, clamp, max_ℤ, clamp-le, le-clamp, le-max_ℤ}
use ar_term.Cell.{Attributes, default_attributes}
use ar_term.Screen.{
  Line, Screen, CursorState, home, new, blank_cell, make_line, touch, mark_stops, reset_tab_stops,
  reset_scroll_region, put_cursor_line, cursor_line, line, set_line_wrapped, move_cursor,
  move_cursor_relative, set_column, set_row, carriage_return, clamp_cursor, set_scroll_region,
}
use ar_term.Screen.Scroll.{
  iterate, trim, set_scrollback_limit, clear_scrollback, move_blank, push_scrollback,
  scroll_up_once, scroll_up, scroll_down, index, reverse_index, next_line, insert_lines,
  delete_lines, feeds_scrollback, outside_region,
}

abbrev pub HasWidth : ℕ → Line → Type 0
HasWidth columns l = length l ≡ columns

pub record IsValid (s : Screen) : Type 0 where
  pub columns_pos : 0 < s.columns
  pub rows_pos : 0 < s.rows
  pub lines_size : length s.lines ≡ s.rows
  pub widths : All (HasWidth s.columns) s.lines
  pub history_widths : All (HasWidth s.columns) s.scrollback
  pub history_le : length s.scrollback ≤ s.scrollback_limit
  pub wrapped_size : length s.wrapped ≡ s.rows
  pub stops_size : length s.tab_stops ≡ s.columns
  pub row_lt : s.cursor.row < s.rows
  pub column_lt : s.cursor.column < s.columns
  pub top_le : s.scroll_top ≤ s.scroll_bottom
  pub bottom_lt : s.scroll_bottom < s.rows

pub length-make_line : (columns : ℕ) (fill : Attributes) → length (make_line columns fill) ≡ columns
unfolding make_line
length-make_line columns fill = length-replicate columns (blank_cell fill)

pub length-mark_stops :
    (fuel column columns : ℕ) (stops : List Bool)
    → length (mark_stops fuel column columns stops) ≡ length stops
unfolding mark_stops
length-mark_stops zero column columns stops = refl
length-mark_stops (suc fuel) column columns stops = ground (
  arith,
  length-mark_stops fuel (column + 8) columns (set stops column true),
  length-set stops column true,
)

-- A constructed screen is valid, whatever the arguments.
pub new-IsValid : (columns rows limit : ℤ) → IsValid (new columns rows limit)
unfolding new reset_tab_stops
new-IsValid columns rows limit =
    let w = max_ℤ 1 columns in
    let h = max_ℤ 1 rows in
    let w_pos = le-max_ℤ 1 columns in
    let h_pos = le-max_ℤ 1 rows in
    record {
      columns_pos = omega arith;
      rows_pos = omega arith;
      lines_size = length-replicate h (make_line w default_attributes);
      widths = All-replicate (HasWidth w) h _ (length-make_line w default_attributes);
      history_widths = tt;
      history_le = omega arith;
      wrapped_size = length-replicate h false;
      stops_size =
          omega (arith, length-mark_stops w 8 w (replicate w false), length-replicate w false);
      row_lt = omega arith;
      column_lt = omega arith;
      top_le = omega arith;
      bottom_lt = omega arith;
    }

module _ (s : Screen) (h : IsValid s) where
  pub touch-IsValid : IsValid (touch s)
  unfolding touch
  touch-IsValid = ground arith

  pub carriage_return-IsValid : IsValid (carriage_return s)
  unfolding carriage_return
  carriage_return-IsValid = ground arith

  pub move_cursor-IsValid : (row column : ℤ) → IsValid (move_cursor s row column)
  unfolding move_cursor
  move_cursor-IsValid row column =
      ground (arith, clamp-le row 0 (s.rows - 1), clamp-le column 0 (s.columns - 1))

  pub move_cursor_relative-IsValid : (row column : ℤ) → IsValid (move_cursor_relative s row column)
  unfolding move_cursor_relative
  move_cursor_relative-IsValid row column = move_cursor-IsValid _ _

  pub set_column-IsValid : (column : ℤ) → IsValid (set_column s column)
  unfolding set_column
  set_column-IsValid column = ground (arith, clamp-le column 0 (s.columns - 1))

  pub set_row-IsValid : (row : ℤ) → IsValid (set_row s row)
  unfolding set_row
  set_row-IsValid row = ground (arith, clamp-le row 0 (s.rows - 1))

  pub reset_scroll_region-IsValid : IsValid (reset_scroll_region s)
  unfolding reset_scroll_region
  reset_scroll_region-IsValid = ground arith

  pub set_scroll_region-IsValid : (top bottom : ℤ) → IsValid (set_scroll_region s top bottom)
  unfolding set_scroll_region
  set_scroll_region-IsValid top bottom =
      ground (arith, clamp-le bottom 0 (s.rows - 1), reset_scroll_region-IsValid)

  pub reset_tab_stops-IsValid : IsValid (reset_tab_stops s)
  unfolding reset_tab_stops
  reset_tab_stops-IsValid = ground (
    arith,
    length-mark_stops s.columns 8 s.columns (replicate s.columns false),
    length-replicate s.columns false,
  )

  pub set_line_wrapped-IsValid : (row : ℕ) (b : Bool) → IsValid (set_line_wrapped s row b)
  unfolding set_line_wrapped
  set_line_wrapped-IsValid row b = ground (arith, length-set s.wrapped row b)

  pub clear_scrollback-IsValid : IsValid (clear_scrollback s)
  unfolding clear_scrollback touch
  clear_scrollback-IsValid = ground arith
