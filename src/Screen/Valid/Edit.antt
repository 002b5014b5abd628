-- ===== src/Screen/Valid/Edit.antt =====
-- Erasing, character editing, `reset`, `fillWith` and the tab stops keep the screen valid.
use ar_term.Prelude.{
  ℕ, zero, suc, ◌+◌, ◌-◌, ◌^◌, ◌≤◌, ◌<◌, ◌≡◌, refl, ◌∙◌, Bool, false, List, [], ◌∷◌, arith, length,
  All, All-set, All-get_or, All-replicate, get_or, map, length-set, length-map, length-fill_range,
  length-insert_idx, length-erase_idx, length-pop_back, length-append, length-replicate, fill_range,
  min, insert_idx, erase_idx, replicate,
}
use ar_term.Prelude.Int.{ℤ, pos, negsuc, clamp, clamp-le, max_ℤ}
use ar_term.Cell.{Attributes, Cell}
use ar_term.Screen.{Line, Screen, blank_cell, make_line, touch, cursor_line, put_cursor_line, home}
use ar_term.Screen.Edit.{
  EraseMode, to_end, to_start, all, settle, erased, erase_in_line, clear_row, clear_rows,
  erase_in_display, erased_end, erase_characters, insert_blank, delete_cell, insert_characters,
  delete_characters, reset, fill_with,
}
use ar_term.Screen.Tabs.{put_tab_stop, clear_all_tab_stops}
use ar_term.Screen.Valid.{
  IsValid, HasWidth, length-make_line, touch-IsValid, set_line_wrapped-IsValid,
  reset_scroll_region-IsValid, reset_tab_stops-IsValid,
}
use ar_term.Screen.Valid.Scroll.{iterate_inv}

settle-IsValid : (s : Screen) → IsValid s → IsValid (settle s)
unfolding settle touch
settle-IsValid s h = ground arith

module _ (s : Screen) (h : IsValid s) where
  pub cursor_line-HasWidth : HasWidth s.columns (cursor_line s)
  unfolding cursor_line
  cursor_line-HasWidth =
      All-get_or (HasWidth s.columns) s.lines (clamp (pos s.cursor.row) 0 (s.rows - 1)) [] h.widths
        (omega (arith, clamp-le (pos s.cursor.row) 0 (s.rows - 1), h.rows_pos, h.lines_size))

  pub put_cursor_line-IsValid : (l : Line) → HasWidth s.columns l → IsValid (put_cursor_line s l)
  unfolding put_cursor_line
  put_cursor_line-IsValid l w =
      let row = clamp (pos s.cursor.row) 0 (s.rows - 1) in
      let widths = All-set (HasWidth s.columns) s.lines row l w h.widths in
      ground (arith, widths, length-set s.lines row l)

length-erased :
    (mode : EraseMode) (column columns : ℕ) (filler : Cell) (l : Line)
    → column < columns
    → HasWidth columns l
    → HasWidth columns (erased mode column columns filler l)
unfolding erased
length-erased to_end column columns filler l lt w =
    length-fill_range column (length l) filler l (omega (arith, w)) (omega arith) ∙ w
length-erased to_start column columns filler l lt w =
    length-fill_range 0 (min (column + 1) columns) filler l (omega arith) (omega (arith, w)) ∙ w
length-erased all column columns filler l lt w =
    length-fill_range 0 (length l) filler l (omega arith) (omega arith) ∙ w

pub erase_in_line-IsValid :
    (s : Screen) (mode : EraseMode) (fill : Attributes)
    → IsValid s
    → IsValid (erase_in_line s mode fill)
unfolding erase_in_line
erase_in_line-IsValid s mode fill h = settle-IsValid _ (
    set_line_wrapped-IsValid _
      (put_cursor_line-IsValid s h _ (
        length-erased mode s.cursor.column s.columns (blank_cell fill) (cursor_line s) h.column_lt
          (cursor_line-HasWidth s h)))
      s.cursor.row false)

clear_row-IsValid :
    (filler : Cell) (row : ℕ) (s : Screen)
    → row < s.rows
    → IsValid s
    → IsValid (clear_row filler row s)
unfolding clear_row
clear_row-IsValid filler row s lt h =
    let old = get_or s.lines row [] in
    let w : HasWidth s.columns old =
      All-get_or (HasWidth s.columns) s.lines row [] h.widths (omega (arith, h.lines_size)) in
    let widths =
      All-set (HasWidth s.columns) s.lines row (fill_range 0 (length old) filler old)
        (length-fill_range 0 (length old) filler old (omega arith) (omega arith) ∙ w) h.widths in
    ground (
      arith,
      widths,
      length-set s.lines row (fill_range 0 (length old) filler old),
      length-set s.wrapped row false,
    )

clear_row-rows : (filler : Cell) (row : ℕ) (s : Screen) → (clear_row filler row s).rows ≡ s.rows
unfolding clear_row
clear_row-rows filler row s = refl

clear_rows-IsValid :
    (filler : Cell) (first count : ℕ) (s : Screen)
    → first + count ≤ s.rows
    → IsValid s
    → IsValid (clear_rows filler first count s)
unfolding clear_rows
clear_rows-IsValid filler first zero s le h = h
clear_rows-IsValid filler first (suc count) s le h =
    clear_rows-IsValid filler (first + 1) count (clear_row filler first s)
      (omega (arith, clear_row-rows filler first s))
      (clear_row-IsValid filler first s (omega arith) h)

erase_in_line-rows :
    (s : Screen) (mode : EraseMode) (fill : Attributes) → (erase_in_line s mode fill).rows ≡ s.rows
unfolding erase_in_line touch
erase_in_line-rows s mode fill = refl

pub erase_in_display-IsValid :
    (s : Screen) (mode : EraseMode) (fill : Attributes)
    → IsValid s
    → IsValid (erase_in_display s mode fill)
unfolding erase_in_display
erase_in_display-IsValid s to_end fill h = settle-IsValid _ (
    clear_rows-IsValid (blank_cell fill) (s.cursor.row + 1) (s.rows - (s.cursor.row + 1)) _
      (omega (arith, h.row_lt, erase_in_line-rows s to_end fill))
      (erase_in_line-IsValid s to_end fill h))
erase_in_display-IsValid s to_start fill h = settle-IsValid _ (
    erase_in_line-IsValid _ to_start fill
      (clear_rows-IsValid (blank_cell fill) 0 s.cursor.row s (omega (arith, h.row_lt)) h))
erase_in_display-IsValid s all fill h =
    settle-IsValid _ (clear_rows-IsValid (blank_cell fill) 0 s.rows s (omega arith) h)

-- With no overflow of the sum of the column and the count, which is at least 1.
pub erase_characters-IsValid :
    (s : Screen) (count : ℤ) (fill : Attributes)
    → IsValid s
    → s.cursor.column + max_ℤ 1 count < 2 ^ 31
    → IsValid (erase_characters s count fill)
unfolding erase_characters
erase_characters-IsValid s count fill h lt = settle-IsValid _ (
    put_cursor_line-IsValid s h _ (
      length-fill_range s.cursor.column _ (blank_cell fill) (cursor_line s) (begins h.column_lt)
        (ends (cursor_line-HasWidth s h))
      ∙ cursor_line-HasWidth s h))
  where
    n : ℕ
    n = max_ℤ 1 count

    end_eq : erased_end s.cursor.column n s.columns ≡ min (s.cursor.column + n) s.columns
    end_eq = unfold erased_end in ground (arith, lt)

    begins : s.cursor.column < s.columns → s.cursor.column ≤ erased_end s.cursor.column n s.columns
    begins below = omega (arith, end_eq)

    ends :
        length (cursor_line s) ≡ s.columns
        → erased_end s.cursor.column n s.columns ≤ length (cursor_line s)
    ends w = omega (arith, end_eq)

pub insert_blank-HasWidth :
    (columns column : ℕ) (filler : Cell) (l : Line)
    → HasWidth columns l
    → HasWidth columns (insert_blank column filler l)
unfolding insert_blank
insert_blank-HasWidth columns column filler l w =
    omega (arith, length-pop_back (insert_idx l column filler), length-insert_idx l column filler)

delete_cell-HasWidth :
    (columns column : ℕ) (filler : Cell) (l : Line)
    → column < columns
    → HasWidth columns l
    → HasWidth columns (delete_cell column filler l)
unfolding delete_cell
delete_cell-HasWidth columns column filler l lt w = omega (
  arith,
  length-append (erase_idx l column) (filler ∷ []),
  length-erase_idx l column (omega arith),
)

pub insert_characters-IsValid :
    (s : Screen) (count : ℤ) (fill : Attributes)
    → IsValid s
    → IsValid (insert_characters s count fill)
unfolding insert_characters
insert_characters-IsValid s count fill h = settle-IsValid _ (
    put_cursor_line-IsValid s h _ (
      iterate_inv (HasWidth s.columns) _ _ (cursor_line s)
        (λ l w. insert_blank-HasWidth s.columns s.cursor.column (blank_cell fill) l w)
        (cursor_line-HasWidth s h)))

pub delete_characters-IsValid :
    (s : Screen) (count : ℤ) (fill : Attributes)
    → IsValid s
    → IsValid (delete_characters s count fill)
unfolding delete_characters
delete_characters-IsValid s count fill h = settle-IsValid _ (
    put_cursor_line-IsValid s h _ (
      iterate_inv (HasWidth s.columns) _ _ (cursor_line s)
        (λ l w. delete_cell-HasWidth s.columns s.cursor.column (blank_cell fill) l h.column_lt w)
        (cursor_line-HasWidth s h)))

pub reset-IsValid : (s : Screen) (fill : Attributes) → IsValid s → IsValid (reset s fill)
unfolding reset
reset-IsValid s fill h =
    let blank = make_line s.columns fill in
    let cleared : IsValid (record s {
      lines = replicate s.rows blank;
      wrapped = replicate s.rows false;
      cursor = home;
    }) =
      record {
        columns_pos = h.columns_pos;
        rows_pos = h.rows_pos;
        lines_size = length-replicate s.rows blank;
        widths = All-replicate (HasWidth s.columns) s.rows blank (length-make_line s.columns fill);
        history_widths = h.history_widths;
        history_le = h.history_le;
        wrapped_size = length-replicate s.rows false;
        stops_size = h.stops_size;
        row_lt = h.rows_pos;
        column_lt = h.columns_pos;
        top_le = h.top_le;
        bottom_lt = h.bottom_lt;
      } in
    touch-IsValid _ (reset_tab_stops-IsValid _ (reset_scroll_region-IsValid _ cleared))

map_fill-HasWidth :
    (columns : ℕ) (cell : Cell) (ls : List Line)
    → All (HasWidth columns) ls
    → All (HasWidth columns) (map (λ l. fill_range 0 (length l) cell l) ls)
map_fill-HasWidth columns cell [] h = tt
map_fill-HasWidth columns cell (l ∷ ls) h = (
  length-fill_range 0 (length l) cell l (omega arith) (omega arith) ∙ h.0,
  map_fill-HasWidth columns cell ls h.1,
)

pub fill_with-IsValid :
    (s : Screen) (code_point : ℕ) (a : Attributes) → IsValid s → IsValid (fill_with s code_point a)
unfolding fill_with touch
fill_with-IsValid s code_point a h =
    let cell : Cell = record { character = code_point; attributes = a } in
    let widths = map_fill-HasWidth s.columns cell s.lines h.widths in
    ground (arith, widths, length-map (λ (l : Line). fill_range 0 (length l) cell l) s.lines)

pub put_tab_stop-IsValid :
    (s : Screen) (column : ℤ) (stop : Bool) → IsValid s → IsValid (put_tab_stop s column stop)
unfolding put_tab_stop
put_tab_stop-IsValid s (pos column) stop h = ground (arith, length-set s.tab_stops column stop)
put_tab_stop-IsValid s (negsuc n) stop h = h

pub clear_all_tab_stops-IsValid : (s : Screen) → IsValid s → IsValid (clear_all_tab_stops s)
unfolding clear_all_tab_stops
clear_all_tab_stops-IsValid s h = ground (arith, length-replicate s.columns false)
