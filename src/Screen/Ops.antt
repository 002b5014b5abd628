-- ===== src/Screen/Ops.antt =====
-- The public operations of `Screen` in src/terminal/Screen.hpp as one type of requests, and the
-- screens that they reach.
use ar_term.Prelude.{ℕ, ◌+◌, ◌^◌, ◌<◌, ◌≤◌, ◌≡◌, ◌≢◌, ◌⊎◌, Bool, Option, some}
use ar_term.Prelude.Int.{ℤ, pos, negsuc, ◌+ℤ◌, max_ℤ}
use ar_term.Cell.{Attributes}
use ar_term.Screen.{
  Screen, new, move_cursor, move_cursor_relative, set_column, set_row, carriage_return,
  set_scroll_region, reset_scroll_region, reset_tab_stops, set_line_wrapped,
}
use ar_term.Screen.Scroll.{
  set_scrollback_limit, clear_scrollback, scroll_up, scroll_down, index, reverse_index, next_line,
  insert_lines, delete_lines,
}
use ar_term.Screen.Edit.{
  EraseMode, erase_in_line, erase_in_display, erase_characters, insert_characters,
  delete_characters, reset, fill_with,
}
use ar_term.Screen.Tabs.{set_tab_stop, clear_tab_stop, clear_all_tab_stops}
use ar_term.Screen.Write.{write_character}
use ar_term.Screen.Resize.{resize}

pub data Request : Type 0 where
  do_resize : (columns rows : ℤ) → Request
  do_set_scrollback_limit : (lines : ℤ) → Request
  do_move_cursor : (row column : ℤ) → Request
  do_move_cursor_relative : (rows columns : ℤ) → Request
  do_set_column : (column : ℤ) → Request
  do_set_row : (row : ℤ) → Request
  do_carriage_return : Request
  do_index : (fill : Attributes) → Request
  do_reverse_index : (fill : Attributes) → Request
  do_next_line : (fill : Attributes) → Request
  do_erase_in_line : (mode : EraseMode) (fill : Attributes) → Request
  do_erase_in_display : (mode : EraseMode) (fill : Attributes) → Request
  do_erase_characters : (count : ℤ) (fill : Attributes) → Request
  do_clear_scrollback : Request
  do_insert_lines : (count : ℤ) (fill : Attributes) → Request
  do_delete_lines : (count : ℤ) (fill : Attributes) → Request
  do_insert_characters : (count : ℤ) (fill : Attributes) → Request
  do_delete_characters : (count : ℤ) (fill : Attributes) → Request
  do_scroll_up : (count : ℤ) (fill : Attributes) → Request
  do_scroll_down : (count : ℤ) (fill : Attributes) → Request
  do_set_scroll_region : (top bottom : ℤ) → Request
  do_reset_scroll_region : Request
  do_set_tab_stop : (column : ℤ) → Request
  do_clear_tab_stop : (column : ℤ) → Request
  do_clear_all_tab_stops : Request
  do_reset_tab_stops : Request
  do_reset : (fill : Attributes) → Request
  do_fill_with : (code_point : ℕ) (a : Attributes) → Request
  do_set_line_wrapped : (row : ℕ) (wrapped : Bool) → Request
  do_write : (code_point width : ℕ) (a : Attributes) (insert_mode auto_wrap : Bool) → Request

-- `none` is a read or a write of a cell outside the line; a filled range that is not inside the line
-- leaves a longer one, which no valid screen has.
unfoldable pub perform : Request → Screen → Option Screen
perform (do_resize columns rows) s = some (resize s columns rows)
perform (do_set_scrollback_limit lines) s = some (set_scrollback_limit s lines)
perform (do_move_cursor row column) s = some (move_cursor s row column)
perform (do_move_cursor_relative rows columns) s = some (move_cursor_relative s rows columns)
perform (do_set_column column) s = some (set_column s column)
perform (do_set_row row) s = some (set_row s row)
perform do_carriage_return s = some (carriage_return s)
perform (do_index fill) s = some (index s fill)
perform (do_reverse_index fill) s = some (reverse_index s fill)
perform (do_next_line fill) s = some (next_line s fill)
perform (do_erase_in_line mode fill) s = some (erase_in_line s mode fill)
perform (do_erase_in_display mode fill) s = some (erase_in_display s mode fill)
perform (do_erase_characters count fill) s = some (erase_characters s count fill)
perform do_clear_scrollback s = some (clear_scrollback s)
perform (do_insert_lines count fill) s = some (insert_lines s count fill)
perform (do_delete_lines count fill) s = some (delete_lines s count fill)
perform (do_insert_characters count fill) s = some (insert_characters s count fill)
perform (do_delete_characters count fill) s = some (delete_characters s count fill)
perform (do_scroll_up count fill) s = some (scroll_up s count fill)
perform (do_scroll_down count fill) s = some (scroll_down s count fill)
perform (do_set_scroll_region top bottom) s = some (set_scroll_region s top bottom)
perform do_reset_scroll_region s = some (reset_scroll_region s)
perform (do_set_tab_stop column) s = some (set_tab_stop s column)
perform (do_clear_tab_stop column) s = some (clear_tab_stop s column)
perform do_clear_all_tab_stops s = some (clear_all_tab_stops s)
perform do_reset_tab_stops s = some (reset_tab_stops s)
perform (do_reset fill) s = some (reset s fill)
perform (do_fill_with code_point a) s = some (fill_with s code_point a)
perform (do_set_line_wrapped row wrapped) s = some (set_line_wrapped s row wrapped)
perform (do_write code_point width a insert_mode auto_wrap) s =
    write_character s code_point width a insert_mode auto_wrap

-- A value of the type `int`.
abbrev pub IsInt : ℤ → Type 0
IsInt (pos n) = n < 2 ^ 31
IsInt (negsuc n) = n < 2 ^ 31

-- A character two columns wide is asked for on a screen of two columns or more, and the sums that
-- the operation makes of the cursor's position and its arguments are in the range of `int`.
unfoldable pub IsAllowed : Request → Screen → Type 0
IsAllowed (do_write code_point width a insert_mode auto_wrap) s =
    ((width ≢ 2) ⊎ (2 ≤ s.columns)) × (s.cursor.column + width < 2 ^ 31)
IsAllowed (do_erase_characters count fill) s = s.cursor.column + max_ℤ 1 count < 2 ^ 31
IsAllowed (do_move_cursor_relative rows columns) s =
    IsInt (pos s.cursor.row +ℤ rows) × IsInt (pos s.cursor.column +ℤ columns)
IsAllowed _ s = Unit

-- What a caller of the class can bring about.
pub data Reachable : Screen → Type 0 where
  built : (columns rows limit : ℤ) → Reachable (new columns rows limit)
  step :
      {s t : Screen} (request : Request)
      → Reachable s
      → IsAllowed request s
      → perform request s ≡ some t
      → Reachable t
