-- ===== src/Screen/Measure.antt =====
-- The size that `Screen::resize` of src/terminal/Screen.cpp makes.
use ar_term.Prelude.{
  ℕ, zero, suc, ◌+◌, ◌-◌, ◌≡◌, refl, ◌&&◌, ◌==◌, false, ltb, arith, none, some, ◌∷◌, ◌++◌,
  replicate, if_lem, Bool-cases, inl, inr,
}
use ar_term.Prelude.Int.{ℤ, max_ℤ}
use ar_term.Cell.{default_attributes}
use ar_term.Screen.{Screen, make_line, touch, clamp_cursor, reset_scroll_region, reset_tab_stops}
use ar_term.Screen.Scroll.{push_scrollback}
use ar_term.Screen.Resize.{
  resize_columns, drop_top, shrink, split_last, grow_by, resize_rows, finish_resize, resize,
}
use ar_term.Screen.Valid.{IsValid}
use ar_term.Screen.Valid.Scroll.{iterate_inv}
use ar_term.Screen.Valid.Resize.{resize-IsValid}
use ar_term.Screen.Frame.{Fits, HasSize}

module _ (columns : ℕ) where
  abbrev HasColumns : Screen → Type 0
  HasColumns s = s.columns ≡ columns

  drop_top-HasColumns : (s : Screen) → HasColumns s → HasColumns (drop_top s)
  unfolding drop_top push_scrollback
  drop_top-HasColumns s h = ground (arith, h)

  shrink-HasColumns : (rows : ℕ) (s : Screen) → HasColumns s → HasColumns (shrink rows s)
  unfolding shrink
  shrink-HasColumns rows s h = iterate_inv HasColumns _ drop_top s drop_top-HasColumns h

  grow_by-HasColumns : (deficit : ℕ) (s : Screen) → HasColumns s → HasColumns (grow_by deficit s)
  unfolding grow_by
  grow_by-HasColumns zero s h = h
  grow_by-HasColumns (suc deficit) s h =
      elim (split_last s.scrollback)
        as (λ o. HasColumns (elim o [
          | none ↦ record s {
            lines = s.lines ++ replicate (suc deficit) (make_line s.columns default_attributes);
            wrapped = s.wrapped ++ replicate (suc deficit) false;
          }
          | some (older, newest) ↦ grow_by deficit (record s {
            lines = newest ∷ s.lines;
            scrollback = older;
            wrapped = false ∷ s.wrapped;
            cursor = record s.cursor { row = s.cursor.row + 1 };
          })
        ])) [ none ↦ h | some (older, newest) ↦ grow_by-HasColumns deficit _ h ]

  resize_rows-HasColumns : (rows : ℕ) (s : Screen) → HasColumns s → HasColumns (resize_rows rows s)
  unfolding resize_rows
  resize_rows-HasColumns rows s h =
      if_lem HasColumns (ltb rows s.rows) _ _ (shrink-HasColumns rows s h)
        (if_lem HasColumns (ltb s.rows rows) _ _ (grow_by-HasColumns (rows - s.rows) s h) h)

columns-resize_columns : (columns : ℕ) (s : Screen) → (resize_columns columns s).columns ≡ columns
unfolding resize_columns
columns-resize_columns columns s = ground arith

finish_resize-HasSize :
    (columns rows : ℕ) (s : Screen)
    → s.columns ≡ columns
    → HasSize columns rows (finish_resize rows s)
unfolding finish_resize touch clamp_cursor reset_tab_stops reset_scroll_region
finish_resize-HasSize columns rows s h = (h, refl)

resize-HasSize :
    (s : Screen) (columns rows : ℤ)
    → HasSize (max_ℤ 1 columns) (max_ℤ 1 rows) (resize s columns rows)
unfolding resize
resize-HasSize s columns rows =
    elim (Bool-cases (max_ℤ 1 columns == s.columns && max_ℤ 1 rows == s.rows)) [
      | inl same ↦ ground arith
      | inr other ↦
          let t = resize_columns (max_ℤ 1 columns) s in
          rw other (
            finish_resize-HasSize (max_ℤ 1 columns) (max_ℤ 1 rows) (resize_rows (max_ℤ 1 rows) t) (
              resize_rows-HasColumns (max_ℤ 1 columns) (max_ℤ 1 rows) t
                (columns-resize_columns (max_ℤ 1 columns) s)))
    ]

-- `resize` makes the grid of the size that it is asked for, and never an empty one.
pub resize-Fits :
    (s : Screen) (columns rows : ℤ)
    → IsValid s
    → Fits (max_ℤ 1 columns) (max_ℤ 1 rows) (resize s columns rows)
resize-Fits s columns rows h = (resize-IsValid s columns rows h, resize-HasSize s columns rows)
