-- ===== src/Screen/Valid/Resize.antt =====
-- `resize` gives a valid screen of the size that was asked for.
use native.Mathlib.Nat.{zero-add, suc-add, add-zero}
use ar_term.Prelude.{
  ℕ, zero, suc, ◌+◌, ◌-◌, ◌≤◌, ◌<◌, ◌≡◌, refl, ap, sym, subst, ◌∙◌, Bool, false, inl, inr, none,
  some, List, [], ◌∷◌, ◌++◌, arith, ltb, ltb→lt, ◌==◌, length, All, All-append, All-append_left,
  All-append_right, All-replicate, All-resize_to, All-map, length-append, length-replicate,
  length-map, length-resize_to, resize_to, resize_to_self, replicate, Bool-cases, min, max, ◌&&◌,
  Option-cases,
}
use ar_term.Prelude.Int.{ℤ, pos, max_ℤ, le-max_ℤ, clamp-le}
use ar_term.Cell.{default_attributes}
use ar_term.Screen.{
  Line, Screen, blank_cell, make_line, touch, clamp_cursor, reset_scroll_region, reset_tab_stops,
}
use ar_term.Screen.Scroll.{iterate, push_scrollback}
use ar_term.Screen.Resize.{
  resize_columns, drop_top, shrink, split_last, grow_by, resize_rows, finish_resize, resize,
}
use ar_term.Screen.Valid.{IsValid, HasWidth, length-make_line, length-mark_stops}
use ar_term.Screen.Valid.Scroll.{length-trim-le, All-trim}

-- What holds between the steps: the lines and the history fit the width, and there are `rows` lines.
pub record IsShaped (rows : ℕ) (s : Screen) : Type 0 where
  pub columns_pos : 0 < s.columns
  pub lines_size : length s.lines ≡ rows
  pub widths : All (HasWidth s.columns) s.lines
  pub history_widths : All (HasWidth s.columns) s.scrollback
  pub history_le : length s.scrollback ≤ s.scrollback_limit
  pub wrapped_size : length s.wrapped ≡ rows

resize_columns-IsShaped :
    (columns : ℕ) (s : Screen)
    → 0 < columns
    → IsValid s
    → IsShaped s.rows (resize_columns columns s)
unfolding resize_columns
resize_columns-IsShaped columns s lt h =
    let f = resize_to columns (blank_cell default_attributes) in
    let widths =
      All-map (HasWidth columns) f s.lines
        (length-resize_to columns (blank_cell default_attributes)) in
    let history =
      All-map (HasWidth columns) f s.scrollback
        (length-resize_to columns (blank_cell default_attributes)) in
    ground (arith, widths, history, length-map f s.lines, length-map f s.scrollback)

drop_top-IsShaped : (rows : ℕ) (s : Screen) → IsShaped (suc rows) s → IsShaped rows (drop_top s)
unfolding drop_top push_scrollback
drop_top-IsShaped rows s h = on_lines s.lines s.wrapped h.lines_size h.widths h.wrapped_size
  where
    on_lines :
        (ls : List Line) (ws : List Bool)
        → length ls ≡ suc rows
        → All (HasWidth s.columns) ls
        → length ws ≡ suc rows
        → IsShaped rows (drop_top (record s { lines = ls; wrapped = ws }))
    on_lines [] ws e w v = absurd (omega arith)
    on_lines (l ∷ ls) [] e w v = absurd (omega arith)
    on_lines (l ∷ ls) (b ∷ ws) e w v =
        let longer =
          All-append (HasWidth s.columns) s.scrollback (l ∷ []) h.history_widths (w.0, tt) in
        ground (
          arith,
          length-trim-le s.scrollback_limit (s.scrollback ++ l ∷ []),
          All-trim s.columns s.scrollback_limit (s.scrollback ++ l ∷ []) longer,
        )

drop_tops-IsShaped :
    (n rows : ℕ) (s : Screen) → IsShaped (n + rows) s → IsShaped rows (iterate n drop_top s)
unfolding iterate
drop_tops-IsShaped zero rows s h = rw zero-add at h
drop_tops-IsShaped (suc n) rows s h =
    drop_tops-IsShaped n rows (drop_top s) (drop_top-IsShaped (n + rows) s (rw suc-add at h))

shrink-IsShaped :
    (rows : ℕ) (s : Screen) → rows ≤ s.rows → IsShaped s.rows s → IsShaped rows (shrink rows s)
unfolding shrink
shrink-IsShaped rows s le h =
    let surplus = s.rows - rows in
    let slack = s.cursor.row - (rows - 1) in
    let all_of : min surplus (max slack surplus) ≡ surplus = omega arith in
    let split : s.rows ≡ surplus + rows = omega arith in
    let t = drop_tops-IsShaped surplus rows s (rw (← split) h) in
    rw (all_of, resize_to_self rows [] _ t.lines_size, resize_to_self rows false _ t.wrapped_size) t

-- The split of a list at its last element.
split_last-none : (ls : List Line) → split_last ls ≡ none → ls ≡ []
unfolding split_last
split_last-none [] e = refl
split_last-none (l ∷ ls) e = ground arith

split_last-some :
    (ls front : List Line) (last : Line)
    → split_last ls ≡ some (front, last)
    → ls ≡ front ++ last ∷ []
unfolding split_last
split_last-some [] front last e = cc
split_last-some (l ∷ ls) front last e = elim (Option-cases (split_last ls)) [
  | inl n ↦ ground (arith, split_last-none ls n)
  | inr ((older, newest), n) ↦ ground (arith, split_last-some ls older newest n)
]

-- One round of the growing loop.
unroll-IsShaped :
    (rows : ℕ) (s : Screen) (older : List Line) (newest : Line)
    → split_last s.scrollback ≡ some (older, newest)
    → IsShaped rows s
    → IsShaped (rows + 1) (record s {
      lines = newest ∷ s.lines;
      scrollback = older;
      wrapped = false ∷ s.wrapped;
      cursor = record s.cursor { row = s.cursor.row + 1 };
    })
unroll-IsShaped rows s older newest e h =
    let split = split_last-some s.scrollback older newest e in
    let widths = subst (All (HasWidth s.columns)) split h.history_widths in
    let size : length s.scrollback ≡ length older + 1 =
      ap length split ∙ length-append older (newest ∷ []) in
    let last_width = All-append_right (HasWidth s.columns) older (newest ∷ []) widths in
    record {
      columns_pos = h.columns_pos;
      lines_size = omega (arith, h.lines_size);
      widths = (last_width.0, h.widths);
      history_widths = All-append_left (HasWidth s.columns) older (newest ∷ []) widths;
      history_le = omega (arith, h.history_le);
      wrapped_size = omega (arith, h.wrapped_size);
    }

grow_by-IsShaped :
    (deficit rows : ℕ) (s : Screen)
    → IsShaped rows s
    → IsShaped (rows + deficit) (grow_by deficit s)
unfolding grow_by
grow_by-IsShaped zero rows s h = rw add-zero h
grow_by-IsShaped (suc deficit) rows s h = elim (Option-cases (split_last s.scrollback)) [
  | inl e ↦
      let n = suc deficit in
      let blank = make_line s.columns default_attributes in
      let widths = All-append (HasWidth s.columns) s.lines (replicate n blank) h.widths (
        All-replicate (HasWidth s.columns) n blank
          (length-make_line s.columns default_attributes)) in
      rw (e, grow_by)
        (record {
          columns_pos = h.columns_pos;
          lines_size = omega (
            arith,
            h.lines_size,
            length-append s.lines (replicate n blank),
            length-replicate n blank,
          );
          widths = widths;
          history_widths = h.history_widths;
          history_le = h.history_le;
          wrapped_size = omega (
            arith,
            h.wrapped_size,
            length-append s.wrapped (replicate n false),
            length-replicate n false,
          );
        })
  | inr ((older, newest), e) ↦
      let shifted : rows + suc deficit ≡ rows + 1 + deficit = omega arith in
      rw (e, grow_by, shifted)
        (grow_by-IsShaped deficit (rows + 1) _ (unroll-IsShaped rows s older newest e h))
]

resize_rows-IsShaped :
    (rows : ℕ) (s : Screen) → IsShaped s.rows s → IsShaped rows (resize_rows rows s)
unfolding resize_rows
resize_rows-IsShaped rows s h = elim (Bool-cases (ltb rows s.rows)) [
  | inl fewer ↦ rw fewer (shrink-IsShaped rows s (omega (arith, ltb→lt rows s.rows fewer)) h)
  | inr not_fewer ↦ rw not_fewer (elim (Bool-cases (ltb s.rows rows)) [
    | inl more ↦
        let sum : rows ≡ s.rows + (rows - s.rows) = omega (arith, ltb→lt s.rows rows more) in
        rw more (
          subst (λ n. IsShaped n (grow_by (rows - s.rows) s)) (sym sum)
            (grow_by-IsShaped (rows - s.rows) s.rows s h))
    | inr same ↦ let e : s.rows ≡ rows = ground arith in rw same (subst (λ n. IsShaped n s) e h)
  ])
]

finish_resize-IsValid :
    (rows : ℕ) (s : Screen) → 0 < rows → IsShaped rows s → IsValid (finish_resize rows s)
unfolding finish_resize touch clamp_cursor reset_tab_stops reset_scroll_region
finish_resize-IsValid rows s lt h =
    let blank = make_line s.columns default_attributes in
    let row_le = clamp-le (pos s.cursor.row) 0 (rows - 1) in
    let column_le = clamp-le (pos s.cursor.column) 0 (s.columns - 1) in
    record {
      columns_pos = h.columns_pos;
      rows_pos = lt;
      lines_size = length-resize_to rows blank s.lines;
      widths =
          All-resize_to (HasWidth s.columns) rows blank s.lines
            (length-make_line s.columns default_attributes) h.widths;
      history_widths = h.history_widths;
      history_le = h.history_le;
      wrapped_size = length-resize_to rows false s.wrapped;
      stops_size =
          length-mark_stops s.columns 8 s.columns (replicate s.columns false)
          ∙ length-replicate s.columns false;
      row_lt = omega arith;
      column_lt = omega (arith, h.columns_pos);
      top_le = omega arith;
      bottom_lt = omega arith;
    }

resize_columns-rows : (columns : ℕ) (s : Screen) → (resize_columns columns s).rows ≡ s.rows
unfolding resize_columns
resize_columns-rows columns s = ground arith

-- Resizing a valid screen to any size gives a valid screen: the lines, their widths, the history
-- and the marks fit the new size, and the cursor and the region are inside it.
pub resize-IsValid : (s : Screen) (columns rows : ℤ) → IsValid s → IsValid (resize s columns rows)
unfolding resize
resize-IsValid s columns rows h =
    let w = max_ℤ 1 columns in
    let n = max_ℤ 1 rows in
    elim (Bool-cases (w == s.columns && n == s.rows)) [
      | inl same ↦ rw same h
      | inr other ↦
          let t = resize_columns w s in
          let shaped = resize_columns-IsShaped w s (le-max_ℤ 1 columns) h in
          let own = subst (λ k. IsShaped k t) (sym (resize_columns-rows w s)) shaped in
          rw other (finish_resize-IsValid n _ (le-max_ℤ 1 rows) (resize_rows-IsShaped n t own))
    ]
