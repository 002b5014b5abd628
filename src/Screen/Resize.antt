-- ===== src/Screen/Resize.antt =====
-- `Screen::resize` of src/terminal/Screen.cpp.
use ar_term.Prelude.{
  ℕ, zero, suc, ◌+◌, ◌-◌, false, ◌&&◌, List, [], ◌∷◌, ◌++◌, Option, none, some, ltb, ◌==◌,
  if◌then◌else◌, get_or, map, resize_to, replicate, min, max,
}
use mathlib.Core.List.{tail}
use ar_term.Prelude.Int.{ℤ, max_ℤ}
use ar_term.Cell.{default_attributes}
use ar_term.Screen.{
  Line, Screen, blank_cell, make_line, touch, clamp_cursor, reset_scroll_region, reset_tab_stops,
}
use ar_term.Screen.Scroll.{iterate, push_scrollback}

-- Every line of the grid and of the scrollback gets the new width.
unfoldable pub resize_columns : ℕ → Screen → Screen
resize_columns columns s = if columns == s.columns then s else record s {
  lines = map (resize_to columns (blank_cell default_attributes)) s.lines;
  scrollback = map (resize_to columns (blank_cell default_attributes)) s.scrollback;
  columns = columns;
}

-- One round of the shrinking loop: the top line goes to the scrollback, if there is one.
unfoldable pub drop_top : Screen → Screen
drop_top s =
    let fed = if ltb 0 s.scrollback_limit then push_scrollback (get_or s.lines 0 []) s else s in
    record fed {
      lines = tail s.lines;
      wrapped = tail s.wrapped;
      cursor = record s.cursor { row = s.cursor.row - 1 };
    }

unfoldable pub shrink : ℕ → Screen → Screen
shrink rows s =
    let surplus = s.rows - rows in
    let slack = s.cursor.row - (rows - 1) in
    let t = iterate (min surplus (max slack surplus)) drop_top s in
    record t { lines = resize_to rows [] t.lines; wrapped = resize_to rows false t.wrapped }

-- The newest line of the scrollback and the older ones.
unfoldable pub split_last : List Line → Option (List Line × Line)
split_last [] = none
split_last (l ∷ ls) = elim (split_last ls) [
  | none ↦ some ([], l)
  | some (front, last) ↦ some (l ∷ front, last)
]

-- The growing loop: `while (deficit > 0 && !m_scrollback.empty())`, then blank lines.
unfoldable pub grow_by : ℕ → Screen → Screen
grow_by zero s = s
grow_by (suc deficit) s = elim (split_last s.scrollback) [
  | none ↦ record s {
    lines = s.lines ++ replicate (suc deficit) (make_line s.columns default_attributes);
    wrapped = s.wrapped ++ replicate (suc deficit) false;
  }
  | some (older, newest) ↦ grow_by deficit (record s {
    lines = newest ∷ s.lines;
    scrollback = older;
    wrapped = false ∷ s.wrapped;
    cursor = record s.cursor { row = s.cursor.row + 1 };
  })
]

unfoldable pub resize_rows : ℕ → Screen → Screen
resize_rows rows s =
    if ltb rows s.rows
    then shrink rows s
    else if ltb s.rows rows
    then grow_by (rows - s.rows) s
    else s

unfoldable pub finish_resize : ℕ → Screen → Screen
finish_resize rows s = touch (
    clamp_cursor (
      reset_tab_stops (
        reset_scroll_region (record s {
          rows = rows;
          lines = resize_to rows (make_line s.columns default_attributes) s.lines;
          wrapped = resize_to rows false s.wrapped;
        }))))

unfoldable pub resize : Screen → ℤ → ℤ → Screen
resize s columns rows =
    let width = max_ℤ 1 columns in
    let height = max_ℤ 1 rows in
    if width == s.columns && height == s.rows
    then s
    else finish_resize height (resize_rows height (resize_columns width s))
