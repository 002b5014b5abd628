-- ===== src/Screen/Fits.antt =====
-- Each operation of src/terminal/Screen.cpp but `resize` keeps the grid valid and its size.
use ar_term.Prelude.{ℕ, ◌+◌, ◌^◌, ◌<◌, Bool}
use ar_term.Prelude.Int.{ℤ, max_ℤ}
use ar_term.Cell.{Attributes}
use ar_term.Screen.{
  Screen, touch, set_line_wrapped, put_cursor_line, move_cursor, move_cursor_relative, set_column,
  set_row, carriage_return, reset_scroll_region, set_scroll_region,
}
use ar_term.Screen.Scroll.{
  clear_scrollback, set_scrollback_limit, scroll_up, scroll_down, index, reverse_index, next_line,
  insert_lines, delete_lines,
}
use ar_term.Screen.Edit.{
  EraseMode, settle, erase_in_line, erase_in_display, erase_characters, insert_characters,
  delete_characters, reset, fill_with,
}
use ar_term.Screen.Tabs.{put_tab_stop, clear_all_tab_stops}
use ar_term.Screen.Valid.{
  move_cursor-IsValid, move_cursor_relative-IsValid, set_column-IsValid, set_row-IsValid,
  carriage_return-IsValid, reset_scroll_region-IsValid, set_scroll_region-IsValid,
  clear_scrollback-IsValid,
}
use ar_term.Screen.Valid.Scroll.{
  set_scrollback_limit-IsValid, scroll_up-IsValid, scroll_down-IsValid, index-IsValid,
  reverse_index-IsValid, next_line-IsValid, insert_lines-IsValid, delete_lines-IsValid,
}
use ar_term.Screen.Valid.Edit.{
  erase_in_line-IsValid, erase_in_display-IsValid, erase_characters-IsValid,
  insert_characters-IsValid, delete_characters-IsValid, reset-IsValid, fill_with-IsValid,
  put_tab_stop-IsValid, clear_all_tab_stops-IsValid,
}
use ar_term.Screen.Frame.{
  Fits, delete_lines-HasSize, erase_in_display-HasSize, index-HasSize, insert_lines-HasSize,
  next_line-HasSize, put_tab_stop-HasSize, reset-HasSize, reverse_index-HasSize,
  scroll_down-HasSize, scroll_up-HasSize, set_scroll_region-HasSize,
}

module _ {columns rows : ℕ} where
  pub move_cursor-Fits :
      (s : Screen) (row column : ℤ)
      → Fits columns rows s
      → Fits columns rows (move_cursor s row column)
  unfolding move_cursor
  move_cursor-Fits s row column h = (move_cursor-IsValid s h.0 row column, h.1)

  pub move_cursor_relative-Fits :
      (s : Screen) (row column : ℤ)
      → Fits columns rows s
      → Fits columns rows (move_cursor_relative s row column)
  unfolding move_cursor_relative move_cursor
  move_cursor_relative-Fits s row column h = (move_cursor_relative-IsValid s h.0 row column, h.1)

  pub set_column-Fits :
      (s : Screen) (column : ℤ) → Fits columns rows s → Fits columns rows (set_column s column)
  unfolding set_column
  set_column-Fits s column h = (set_column-IsValid s h.0 column, h.1)

  pub set_row-Fits :
      (s : Screen) (row : ℤ) → Fits columns rows s → Fits columns rows (set_row s row)
  unfolding set_row
  set_row-Fits s row h = (set_row-IsValid s h.0 row, h.1)

  pub carriage_return-Fits :
      (s : Screen) → Fits columns rows s → Fits columns rows (carriage_return s)
  unfolding carriage_return
  carriage_return-Fits s h = (carriage_return-IsValid s h.0, h.1)

  pub reset_scroll_region-Fits :
      (s : Screen) → Fits columns rows s → Fits columns rows (reset_scroll_region s)
  unfolding reset_scroll_region
  reset_scroll_region-Fits s h = (reset_scroll_region-IsValid s h.0, h.1)

  pub set_scroll_region-Fits :
      (s : Screen) (top bottom : ℤ)
      → Fits columns rows s
      → Fits columns rows (set_scroll_region s top bottom)
  set_scroll_region-Fits s top bottom h = (
    set_scroll_region-IsValid s h.0 top bottom,
    set_scroll_region-HasSize columns rows s top bottom h.1,
  )

  pub clear_scrollback-Fits :
      (s : Screen) → Fits columns rows s → Fits columns rows (clear_scrollback s)
  unfolding clear_scrollback touch
  clear_scrollback-Fits s h = (clear_scrollback-IsValid s h.0, h.1)

  pub scroll_up-Fits :
      (fill : Attributes) (s : Screen) (count : ℤ)
      → Fits columns rows s
      → Fits columns rows (scroll_up s count fill)
  scroll_up-Fits fill s count h =
      (scroll_up-IsValid fill s count h.0, scroll_up-HasSize columns rows fill s count h.1)

  pub scroll_down-Fits :
      (fill : Attributes) (s : Screen) (count : ℤ)
      → Fits columns rows s
      → Fits columns rows (scroll_down s count fill)
  scroll_down-Fits fill s count h =
      (scroll_down-IsValid fill s count h.0, scroll_down-HasSize columns rows fill s count h.1)

  pub index-Fits :
      (fill : Attributes) (s : Screen) → Fits columns rows s → Fits columns rows (index s fill)
  index-Fits fill s h = (index-IsValid fill s h.0, index-HasSize columns rows fill s h.1)

  pub reverse_index-Fits :
      (fill : Attributes) (s : Screen)
      → Fits columns rows s
      → Fits columns rows (reverse_index s fill)
  reverse_index-Fits fill s h =
      (reverse_index-IsValid fill s h.0, reverse_index-HasSize columns rows fill s h.1)

  pub next_line-Fits :
      (fill : Attributes) (s : Screen) → Fits columns rows s → Fits columns rows (next_line s fill)
  next_line-Fits fill s h =
      (next_line-IsValid fill s h.0, next_line-HasSize columns rows fill s h.1)

  pub insert_lines-Fits :
      (fill : Attributes) (s : Screen) (count : ℤ)
      → Fits columns rows s
      → Fits columns rows (insert_lines s count fill)
  insert_lines-Fits fill s count h =
      (insert_lines-IsValid fill s count h.0, insert_lines-HasSize columns rows fill s count h.1)

  pub delete_lines-Fits :
      (fill : Attributes) (s : Screen) (count : ℤ)
      → Fits columns rows s
      → Fits columns rows (delete_lines s count fill)
  delete_lines-Fits fill s count h =
      (delete_lines-IsValid fill s count h.0, delete_lines-HasSize columns rows fill s count h.1)

  pub erase_in_line-Fits :
      (s : Screen) (mode : EraseMode) (fill : Attributes)
      → Fits columns rows s
      → Fits columns rows (erase_in_line s mode fill)
  unfolding erase_in_line settle touch set_line_wrapped put_cursor_line
  erase_in_line-Fits s mode fill h = (erase_in_line-IsValid s mode fill h.0, h.1)

  pub erase_in_display-Fits :
      (s : Screen) (mode : EraseMode) (fill : Attributes)
      → Fits columns rows s
      → Fits columns rows (erase_in_display s mode fill)
  erase_in_display-Fits s mode fill h = (
    erase_in_display-IsValid s mode fill h.0,
    erase_in_display-HasSize columns rows s mode fill h.1,
  )

  pub erase_characters-Fits :
      (s : Screen) (count : ℤ) (fill : Attributes)
      → Fits columns rows s
      → s.cursor.column + max_ℤ 1 count < 2 ^ 31
      → Fits columns rows (erase_characters s count fill)
  unfolding erase_characters settle touch put_cursor_line
  erase_characters-Fits s count fill h lt = (erase_characters-IsValid s count fill h.0 lt, h.1)

  pub insert_characters-Fits :
      (s : Screen) (count : ℤ) (fill : Attributes)
      → Fits columns rows s
      → Fits columns rows (insert_characters s count fill)
  unfolding insert_characters settle touch put_cursor_line
  insert_characters-Fits s count fill h = (insert_characters-IsValid s count fill h.0, h.1)

  pub delete_characters-Fits :
      (s : Screen) (count : ℤ) (fill : Attributes)
      → Fits columns rows s
      → Fits columns rows (delete_characters s count fill)
  unfolding delete_characters settle touch put_cursor_line
  delete_characters-Fits s count fill h = (delete_characters-IsValid s count fill h.0, h.1)

  pub reset-Fits :
      (s : Screen) (fill : Attributes) → Fits columns rows s → Fits columns rows (reset s fill)
  reset-Fits s fill h = (reset-IsValid s fill h.0, reset-HasSize columns rows s fill h.1)

  pub fill_with-Fits :
      (s : Screen) (code_point : ℕ) (fill : Attributes)
      → Fits columns rows s
      → Fits columns rows (fill_with s code_point fill)
  unfolding fill_with touch
  fill_with-Fits s code_point fill h = (fill_with-IsValid s code_point fill h.0, h.1)

  pub put_tab_stop-Fits :
      (s : Screen) (column : ℤ) (stop : Bool)
      → Fits columns rows s
      → Fits columns rows (put_tab_stop s column stop)
  put_tab_stop-Fits s column stop h =
      (put_tab_stop-IsValid s column stop h.0, put_tab_stop-HasSize columns rows s column stop h.1)

  pub clear_all_tab_stops-Fits :
      (s : Screen) → Fits columns rows s → Fits columns rows (clear_all_tab_stops s)
  unfolding clear_all_tab_stops
  clear_all_tab_stops-Fits s h = (clear_all_tab_stops-IsValid s h.0, h.1)

  pub set_scrollback_limit-Fits :
      (s : Screen) (lines : ℤ)
      → Fits columns rows s
      → Fits columns rows (set_scrollback_limit s lines)
  unfolding set_scrollback_limit touch
  set_scrollback_limit-Fits s lines h = (set_scrollback_limit-IsValid s lines h.0, h.1)
