-- ===== src/Screen.antt =====
-- src/terminal/Screen.hpp and the construction, access and cursor parts of
-- src/terminal/Screen.cpp. Rows, columns and sizes are numbers, since the class keeps them at 0 or
-- above; an `int` that a caller passes is an integer. The head of `scrollback` is its oldest line.
pub mod Scroll
pub mod Edit
pub mod Write
pub mod Resize
pub mod Tabs
pub mod Valid
pub mod Regions
pub mod Stops
pub mod History
pub mod Height
pub mod RoundTrip
pub mod Ops
pub mod Frame
pub mod Fits
pub mod Measure
use ar_term.Prelude.{
  ℕ, zero, suc, ◌+◌, ◌-◌, ◌%◌, ◌^◌, Bool, true, false, ◌&&◌, ◌||◌, List, [], ◌∷◌, ◌++◌, Option,
  none, some, ltb, leb, ◌==◌, if◌then◌else◌, length, get_or, get_elem?, set, replicate,
}
use ar_term.Prelude.Int.{ℤ, pos, negsuc, ◌+ℤ◌, clamp, max_ℤ}
use ar_term.Cell.{Attributes, default_attributes, Cell}
use ar_term.Cell.Flag.{
  flag_or, flag_and, flag_not, underline, double_underline, strikeout, wide_lead, wide_trail,
}

abbrev pub Line : Type 0
Line = List Cell

pub record CursorState : Type 0 where
  pub row : ℕ
  pub column : ℕ
  pub attributes : Attributes
  pub pending_wrap : Bool
  pub origin_mode : Bool
  pub charset : ℕ

abbrev pub home : CursorState
home = record {
  row = 0;
  column = 0;
  attributes = default_attributes;
  pending_wrap = false;
  origin_mode = false;
  charset = 0;
}

pub record Screen : Type 0 where
  pub columns : ℕ
  pub rows : ℕ
  pub scrollback_limit : ℕ
  pub lines : List Line
  pub scrollback : List Line
  pub wrapped : List Bool
  pub tab_stops : List Bool
  pub cursor : CursorState
  pub scroll_top : ℕ
  pub scroll_bottom : ℕ
  pub revision : ℕ

-- The flags that a blank never inherits.
unfoldable pub decorations_removed : Attributes → Attributes
decorations_removed a = record a {
  flags = flag_and a.flags (
      flag_not (
        flag_or (flag_or (flag_or (flag_or underline double_underline) strikeout) wide_lead)
          wide_trail));
}

unfoldable pub blank_cell : Attributes → Cell
blank_cell a = record { character = 0x20; attributes = decorations_removed a }

unfoldable pub make_line : ℕ → Attributes → Line
make_line columns fill = replicate columns (blank_cell fill)

-- `++m_revision` on 64 bits
unfoldable pub touch : Screen → Screen
touch s = record s { revision = (s.revision + 1) % 2 ^ 64 }

abbrev tab_width : ℕ
tab_width = 8

-- `for (int column = kTabWidth; column < m_columns; column += kTabWidth)`, on fuel; as many rounds
-- as there are columns are enough, since each advances by 8.
unfoldable pub mark_stops : ℕ → ℕ → ℕ → List Bool → List Bool
mark_stops zero column columns stops = stops
mark_stops (suc fuel) column columns stops = elim (ltb column columns) [
  | true ↦ mark_stops fuel (column + tab_width) columns (set stops column true)
  | false ↦ stops
]

unfoldable pub reset_tab_stops : Screen → Screen
reset_tab_stops s = record s {
  tab_stops = mark_stops s.columns tab_width s.columns (replicate s.columns false);
}

unfoldable pub reset_scroll_region : Screen → Screen
reset_scroll_region s = record s { scroll_top = 0; scroll_bottom = s.rows - 1 }

-- The constructor.
unfoldable pub new : ℤ → ℤ → ℤ → Screen
new columns rows scrollback_limit =
    let width = max_ℤ 1 columns in
    let height = max_ℤ 1 rows in
    reset_tab_stops (record {
      columns = width;
      rows = height;
      scrollback_limit = max_ℤ 0 scrollback_limit;
      lines = replicate height (make_line width default_attributes);
      scrollback = [];
      wrapped = replicate height false;
      tab_stops = [];
      cursor = home;
      scroll_top = 0;
      scroll_bottom = height - 1;
      revision = 0;
    })

unfoldable pub line : Screen → ℤ → Line
line s row = get_or s.lines (clamp row 0 (s.rows - 1)) []

-- The line that `line(m_cursor.row)` refers to, and a write of the whole of it.
unfoldable pub cursor_line : Screen → Line
unfolding line
cursor_line s = line s (pos s.cursor.row)

unfoldable pub put_cursor_line : Screen → Line → Screen
put_cursor_line s l = record s { lines = set s.lines (clamp (pos s.cursor.row) 0 (s.rows - 1)) l }

-- `historyLine`: a negative offset counts back from the newest line of the scrollback.
unfoldable history_line : Screen → ℤ → Option Line
history_line s (pos row) = if ltb row s.rows then get_elem? s.lines row else none
history_line s (negsuc n) =
    if ltb n (length s.scrollback)
    then get_elem? s.scrollback (length s.scrollback - (n + 1))
    else none

unfoldable is_line_wrapped : Screen → ℤ → Bool
is_line_wrapped s (pos row) = get_or s.wrapped row false
is_line_wrapped s (negsuc n) = false

unfoldable pub set_line_wrapped : Screen → ℕ → Bool → Screen
set_line_wrapped s row wrapped = record s { wrapped = set s.wrapped row wrapped }

unfoldable pub move_cursor : Screen → ℤ → ℤ → Screen
move_cursor s row column = record s {
  cursor = record s.cursor {
    row = clamp row 0 (s.rows - 1);
    column = clamp column 0 (s.columns - 1);
    pending_wrap = false;
  };
}

unfoldable pub move_cursor_relative : Screen → ℤ → ℤ → Screen
unfolding move_cursor
move_cursor_relative s rows columns =
    move_cursor s (pos s.cursor.row +ℤ rows) (pos s.cursor.column +ℤ columns)

unfoldable pub set_column : Screen → ℤ → Screen
set_column s column = record s {
  cursor = record s.cursor { column = clamp column 0 (s.columns - 1); pending_wrap = false };
}

unfoldable pub set_row : Screen → ℤ → Screen
set_row s row = record s {
  cursor = record s.cursor { row = clamp row 0 (s.rows - 1); pending_wrap = false };
}

unfoldable pub carriage_return : Screen → Screen
carriage_return s = record s { cursor = record s.cursor { column = 0; pending_wrap = false } }

unfoldable pub clamp_cursor : Screen → Screen
unfolding move_cursor
clamp_cursor s = move_cursor s (pos s.cursor.row) (pos s.cursor.column)

unfoldable pub set_scroll_region : Screen → ℤ → ℤ → Screen
unfolding reset_scroll_region
set_scroll_region s top bottom =
    let first = clamp top 0 (s.rows - 1) in
    let last = clamp bottom 0 (s.rows - 1) in
    if leb last first
    then reset_scroll_region s
    else record s { scroll_top = first; scroll_bottom = last }
