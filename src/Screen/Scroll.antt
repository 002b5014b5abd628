-- ===== src/Screen/Scroll.antt =====
-- The scrolling and line-editing operations of src/terminal/Screen.cpp. Their loops erase one line
-- and insert a blank one; `iterate` runs the body.
use ar_term.Prelude.{
  ℕ, zero, suc, ◌+◌, ◌-◌, Bool, true, false, ◌&&◌, ◌||◌, List, [], ◌∷◌, ◌++◌, ltb, ◌==◌,
  if◌then◌else◌, length, get_or, erase_idx, insert_idx,
}
use ar_term.Prelude.Int.{ℤ, pos, clamp, max_ℤ}
use ar_term.Cell.{Attributes}
use ar_term.Screen.{Line, Screen, make_line, touch, carriage_return}

-- `for (int i = 0; i < n; ++i) body;`
unfoldable pub iterate {ℓ} : {A : Type ℓ} → ℕ → (A → A) → A → A
iterate zero body a = a
iterate (suc n) body a = iterate n body (body a)

-- `while (m_scrollback.size() > limit) m_scrollback.pop_front();`
unfoldable pub trim : ℕ → List Line → List Line
trim limit [] = []
trim limit (l ∷ ls) = elim (ltb limit (suc (length ls))) [ true ↦ trim limit ls | false ↦ l ∷ ls ]

unfoldable pub set_scrollback_limit : Screen → ℤ → Screen
unfolding trim touch
set_scrollback_limit s lines =
    touch (record s {
      scrollback_limit = max_ℤ 0 lines;
      scrollback = trim (max_ℤ 0 lines) s.scrollback;
    })

unfoldable pub clear_scrollback : Screen → Screen
unfolding touch
clear_scrollback s = touch (record s { scrollback = [] })

-- Erase the line at `from` and insert a blank one at `to`.
unfoldable pub move_blank : ℕ → ℕ → Attributes → Screen → Screen
move_blank from to fill s = record s {
  lines = insert_idx (erase_idx s.lines from) to (make_line s.columns fill);
  wrapped = insert_idx (erase_idx s.wrapped from) to false;
}

-- The line goes to the scrollback, which drops its oldest lines.
unfoldable pub push_scrollback : Line → Screen → Screen
unfolding trim
push_scrollback l s = record s { scrollback = trim s.scrollback_limit (s.scrollback ++ l ∷ []) }

unfoldable pub feeds_scrollback : Screen → Bool
feeds_scrollback s = s.scroll_top == 0 && s.scroll_bottom == s.rows - 1

unfoldable pub scroll_up_once : Attributes → Screen → Screen
scroll_up_once fill s =
    let fed =
      if feeds_scrollback s && ltb 0 s.scrollback_limit
      then push_scrollback (get_or s.lines s.scroll_top []) s
      else s in
    move_blank s.scroll_top s.scroll_bottom fill fed

unfoldable pub scroll_up : Screen → ℤ → Attributes → Screen
unfolding touch
scroll_up s count fill =
    touch (iterate (clamp count 1 (s.scroll_bottom - s.scroll_top + 1)) (scroll_up_once fill) s)

unfoldable pub scroll_down : Screen → ℤ → Attributes → Screen
unfolding touch
scroll_down s count fill = touch (
    iterate (clamp count 1 (s.scroll_bottom - s.scroll_top + 1))
      (move_blank s.scroll_bottom s.scroll_top fill) s)

unfoldable pub index : Screen → Attributes → Screen
index s fill =
    let moved =
      if s.cursor.row == s.scroll_bottom
      then scroll_up s (pos 1) fill
      else if ltb s.cursor.row (s.rows - 1)
      then record s { cursor = record s.cursor { row = s.cursor.row + 1 } }
      else s in
    record moved { cursor = record moved.cursor { pending_wrap = false } }

unfoldable pub reverse_index : Screen → Attributes → Screen
reverse_index s fill =
    let moved =
      if s.cursor.row == s.scroll_top
      then scroll_down s (pos 1) fill
      else if ltb 0 s.cursor.row
      then record s { cursor = record s.cursor { row = s.cursor.row - 1 } }
      else s in
    record moved { cursor = record moved.cursor { pending_wrap = false } }

unfoldable pub next_line : Screen → Attributes → Screen
next_line s fill = index (carriage_return s) fill

-- The cursor is outside the scroll region.
unfoldable pub outside_region : Screen → Bool
outside_region s = ltb s.cursor.row s.scroll_top || ltb s.scroll_bottom s.cursor.row

unfoldable pub insert_lines : Screen → ℤ → Attributes → Screen
unfolding carriage_return touch
insert_lines s count fill =
    if outside_region s
    then s
    else touch (
        carriage_return (
          iterate (clamp count 1 (s.scroll_bottom - s.cursor.row + 1))
            (move_blank s.scroll_bottom s.cursor.row fill) s))

unfoldable pub delete_lines : Screen → ℤ → Attributes → Screen
unfolding carriage_return touch
delete_lines s count fill =
    if outside_region s
    then s
    else touch (
        carriage_return (
          iterate (clamp count 1 (s.scroll_bottom - s.cursor.row + 1))
            (move_blank s.cursor.row s.scroll_bottom fill) s))
