-- ===== src/Screen/Frame.antt =====
-- No operation of src/terminal/Screen.cpp but `resize` changes the size of the grid.
use ar_term.Prelude.{
  ℕ, zero, suc, ◌+◌, ◌≡◌, inl, inr, Bool, if_lem, Bool-cases, Option, none, some, arith,
}
use ar_term.Prelude.Int.{ℤ, pos, negsuc}
use ar_term.Cell.{Cell, Attributes}
use ar_term.Screen.{
  Screen, carriage_return, set_scroll_region, reset_scroll_region, reset_tab_stops,
  set_line_wrapped, put_cursor_line, cursor_line, touch,
}
use ar_term.Screen.Scroll.{
  iterate, move_blank, push_scrollback, scroll_up_once, scroll_up, scroll_down, index,
  reverse_index, next_line, outside_region, insert_lines, delete_lines,
}
use ar_term.Screen.Edit.{
  EraseMode, to_end, to_start, all, settle, clear_row, clear_rows, erase_in_line, erase_in_display,
  reset,
}
use ar_term.Screen.Tabs.{put_tab_stop}
use ar_term.Screen.Write.{
  advance_column, place, wrap, wrap_pending, write_glyph, write_character, put_glyph, prepare,
}
use ar_term.Screen.Valid.{IsValid}
use ar_term.Screen.Valid.Scroll.{iterate_inv}

module _ (columns rows : ℕ) where
  abbrev pub HasSize : Screen → Type 0
  HasSize s = (s.columns ≡ columns) × (s.rows ≡ rows)

  module _ (fill : Attributes) where
    scroll_up_once-HasSize : (s : Screen) → HasSize s → HasSize (scroll_up_once fill s)
    unfolding scroll_up_once move_blank push_scrollback
    scroll_up_once-HasSize s h = ground (arith, h)

    pub scroll_up-HasSize : (s : Screen) (count : ℤ) → HasSize s → HasSize (scroll_up s count fill)
    unfolding scroll_up touch
    scroll_up-HasSize s count h =
        iterate_inv HasSize _ (scroll_up_once fill) s scroll_up_once-HasSize h

    move_blanks-HasSize :
        (n from to : ℕ) (s : Screen) → HasSize s → HasSize (iterate n (move_blank from to fill) s)
    unfolding move_blank
    move_blanks-HasSize n from to s h =
        iterate_inv HasSize n (move_blank from to fill) s (λ t k. k) h

    pub scroll_down-HasSize :
        (s : Screen) (count : ℤ) → HasSize s → HasSize (scroll_down s count fill)
    unfolding scroll_down touch
    scroll_down-HasSize s count h = move_blanks-HasSize _ _ _ s h

    pub index-HasSize : (s : Screen) → HasSize s → HasSize (index s fill)
    unfolding index
    index-HasSize s h = ground (arith, scroll_up-HasSize s (pos 1) h)

    pub reverse_index-HasSize : (s : Screen) → HasSize s → HasSize (reverse_index s fill)
    unfolding reverse_index
    reverse_index-HasSize s h = ground (arith, scroll_down-HasSize s (pos 1) h)

    pub next_line-HasSize : (s : Screen) → HasSize s → HasSize (next_line s fill)
    unfolding next_line carriage_return
    next_line-HasSize s h = index-HasSize _ h

    pub insert_lines-HasSize :
        (s : Screen) (count : ℤ) → HasSize s → HasSize (insert_lines s count fill)
    unfolding insert_lines touch carriage_return
    insert_lines-HasSize s count h = elim (Bool-cases (outside_region s)) [
      | inl out ↦ rw out h
      | inr inside ↦ rw inside (move_blanks-HasSize _ s.scroll_bottom s.cursor.row s h)
    ]

    pub delete_lines-HasSize :
        (s : Screen) (count : ℤ) → HasSize s → HasSize (delete_lines s count fill)
    unfolding delete_lines touch carriage_return
    delete_lines-HasSize s count h = elim (Bool-cases (outside_region s)) [
      | inl out ↦ rw out h
      | inr inside ↦ rw inside (move_blanks-HasSize _ s.cursor.row s.scroll_bottom s h)
    ]

  clear_rows-HasSize :
      (filler : Cell) (first count : ℕ) (s : Screen)
      → HasSize s
      → HasSize (clear_rows filler first count s)
  unfolding clear_rows clear_row set_line_wrapped
  clear_rows-HasSize filler first zero s h = h
  clear_rows-HasSize filler first (suc count) s h = clear_rows-HasSize filler (first + 1) count _ h

  erase_in_line-HasSize :
      (s : Screen) (mode : EraseMode) (fill : Attributes)
      → HasSize s
      → HasSize (erase_in_line s mode fill)
  unfolding erase_in_line settle touch set_line_wrapped put_cursor_line
  erase_in_line-HasSize s mode fill h = h

  pub erase_in_display-HasSize :
      (s : Screen) (mode : EraseMode) (fill : Attributes)
      → HasSize s
      → HasSize (erase_in_display s mode fill)
  unfolding erase_in_display settle touch
  erase_in_display-HasSize s to_end fill h =
      clear_rows-HasSize _ _ _ _ (erase_in_line-HasSize s to_end fill h)
  erase_in_display-HasSize s to_start fill h =
      erase_in_line-HasSize _ to_start fill (clear_rows-HasSize _ 0 s.cursor.row s h)
  erase_in_display-HasSize s all fill h = clear_rows-HasSize _ 0 s.rows s h

  pub reset-HasSize : (s : Screen) (fill : Attributes) → HasSize s → HasSize (reset s fill)
  unfolding reset touch reset_tab_stops reset_scroll_region
  reset-HasSize s fill h = h

  pub put_tab_stop-HasSize :
      (s : Screen) (column : ℤ) (stop : Bool) → HasSize s → HasSize (put_tab_stop s column stop)
  unfolding put_tab_stop
  put_tab_stop-HasSize s (pos column) stop h = ground (arith, h)
  put_tab_stop-HasSize s (negsuc n) stop h = h

  pub set_scroll_region-HasSize :
      (s : Screen) (top bottom : ℤ) → HasSize s → HasSize (set_scroll_region s top bottom)
  unfolding set_scroll_region reset_scroll_region
  set_scroll_region-HasSize s top bottom h = ground (arith, h)

  -- A failed write has no screen whose size could differ.
  abbrev pub Sized : Option Screen → Type 0
  Sized none = Unit
  Sized (some t) = HasSize t

  wrap-HasSize : (s : Screen) (a : Attributes) → HasSize s → HasSize (wrap s a)
  unfolding wrap set_line_wrapped
  wrap-HasSize s a h = index-HasSize a _ h

  wrap_pending-HasSize :
      (s : Screen) (a : Attributes) (b : Bool) → HasSize s → HasSize (wrap_pending s a b)
  unfolding wrap_pending
  wrap_pending-HasSize s a b h = ground (arith, wrap-HasSize s a h)

  place-Sized :
      (s : Screen) (code_point width : ℕ) (a : Attributes) (b : Bool)
      → HasSize s
      → Sized (place s code_point width a b)
  unfolding place touch advance_column put_cursor_line
  place-Sized s code_point width a b h =
      elim (prepare s.columns s.cursor.column width a b (cursor_line s))
        as (λ o. Sized (elim o [
          | none ↦ none
          | some target ↦ elim (put_glyph s.cursor.column code_point width a target) [
            | none ↦ none
            | some l ↦ some (touch (advance_column width (put_cursor_line s l)))
          ]
        ])) [
          | none ↦ tt
          | some target ↦
              elim (put_glyph s.cursor.column code_point width a target)
                as (λ o. Sized (elim o [
                  | none ↦ none
                  | some l ↦ some (touch (advance_column width (put_cursor_line s l)))
                ])) [ none ↦ tt | some l ↦ ground (arith, h) ]
        ]

  pub write_character-Sized :
      (s : Screen) (code_point width : ℕ) (a : Attributes) (b wraps : Bool)
      → HasSize s
      → Sized (write_character s code_point width a b wraps)
  unfolding write_character write_glyph
  write_character-Sized s code_point width a b wraps h =
      let q = wrap_pending s a wraps in
      let k = wrap_pending-HasSize s a wraps h in
      if_lem Sized _ _ _
        (if_lem Sized wraps _ _ (place-Sized (wrap q a) code_point _ a b (wrap-HasSize q a k)) k)
        (place-Sized q code_point _ a b k)

  -- Valid, and of this size.
  abbrev pub Fits : Screen → Type 0
  Fits s = IsValid s × HasSize s
