-- ===== src/Screen/Valid/Scroll.antt =====
-- The scrolling and line-editing operations keep the screen valid.
use ar_term.Prelude.{
  ℕ, zero, suc, ◌≤◌, ◌<◌, false, ◌&&◌, inl, inr, List, [], ◌∷◌, ◌++◌, arith, ltb, length, All,
  All-append, All-erase_idx, All-insert_idx, All-get_or, length-erase_idx, length-insert_idx,
  get_or, erase_idx, Bool-cases,
}
use ar_term.Prelude.Int.{ℤ, pos, max_ℤ}
use ar_term.Cell.{Attributes}
use ar_term.Screen.{Line, Screen, make_line, touch}
use ar_term.Screen.Scroll.{
  iterate, trim, set_scrollback_limit, move_blank, push_scrollback, scroll_up_once, scroll_up,
  scroll_down, index, reverse_index, next_line, insert_lines, delete_lines, feeds_scrollback,
  outside_region,
}
use ar_term.Screen.Valid.{
  IsValid, HasWidth, length-make_line, touch-IsValid, carriage_return-IsValid,
}

-- A property that the body of a loop keeps holds after any number of rounds.
pub iterate_inv {ℓ κ} :
    {A : Type ℓ} (P : A → Type κ) (n : ℕ) (body : A → A) (a : A)
    → ((b : A) → P b → P (body b))
    → P a
    → P (iterate n body a)
unfolding iterate
iterate_inv P zero body a keep h = h
iterate_inv P (suc n) body a keep h = iterate_inv P n body (body a) keep (keep a h)

pub length-trim-le : (limit : ℕ) (ls : List Line) → length (trim limit ls) ≤ limit
unfolding trim
length-trim-le limit [] = omega arith
length-trim-le limit (l ∷ ls) = ground (arith, length-trim-le limit ls)

pub All-trim :
    (columns limit : ℕ) (ls : List Line)
    → All (HasWidth columns) ls
    → All (HasWidth columns) (trim limit ls)
unfolding trim
All-trim columns limit [] h = tt
All-trim columns limit (l ∷ ls) h = elim (Bool-cases (ltb limit (suc (length ls)))) [
  | inl over ↦ rw (over, trim) (All-trim columns limit ls h.1)
  | inr under ↦ rw (under, trim) h
]

push_scrollback-IsValid :
    (l : Line) (s : Screen) → HasWidth s.columns l → IsValid s → IsValid (push_scrollback l s)
unfolding push_scrollback
push_scrollback-IsValid l s w h =
    let older = All-append (HasWidth s.columns) s.scrollback (l ∷ []) h.history_widths (w, tt) in
    ground (
      arith,
      length-trim-le s.scrollback_limit (s.scrollback ++ l ∷ []),
      All-trim s.columns s.scrollback_limit (s.scrollback ++ l ∷ []) older,
    )

module _ (fill : Attributes) where
  move_blank-IsValid :
      (from to : ℕ) (s : Screen) → from < s.rows → IsValid s → IsValid (move_blank from to fill s)
  unfolding move_blank
  move_blank-IsValid from to s lt h =
      let blank = make_line s.columns fill in
      let rest = erase_idx s.lines from in
      let widths =
        All-insert_idx (HasWidth s.columns) rest to blank (length-make_line s.columns fill)
          (All-erase_idx (HasWidth s.columns) s.lines from h.widths) in
      ground (
        arith,
        widths,
        length-erase_idx s.lines from,
        length-insert_idx rest to blank,
        length-erase_idx s.wrapped from,
        length-insert_idx (erase_idx s.wrapped from) to false,
      )

  -- The rounds of a loop of `move_blank` keep the number of rows.
  move_blanks-IsValid :
      (n from to : ℕ) (s : Screen)
      → from < s.rows
      → IsValid s
      → IsValid (iterate n (move_blank from to fill) s)
  unfolding move_blank
  move_blanks-IsValid n from to s lt h =
      (iterate_inv (λ t. IsValid t × (from < t.rows)) n (move_blank from to fill) s
        (λ t k. (move_blank-IsValid from to t k.1 k.0, k.1)) (h, lt)).0

  scroll_up_once-IsValid : (s : Screen) → IsValid s → IsValid (scroll_up_once fill s)
  unfolding scroll_up_once push_scrollback
  scroll_up_once-IsValid s h =
      let top = get_or s.lines s.scroll_top [] in
      let w : HasWidth s.columns top =
        All-get_or (HasWidth s.columns) s.lines s.scroll_top [] h.widths
          (omega (arith, h.top_le, h.bottom_lt, h.lines_size)) in
      elim (Bool-cases (feeds_scrollback s && ltb 0 s.scrollback_limit)) [
        | inl fed ↦ rw fed (
            move_blank-IsValid s.scroll_top s.scroll_bottom (push_scrollback top s) (omega arith)
              (push_scrollback-IsValid top s w h))
        | inr unfed ↦ rw unfed (move_blank-IsValid s.scroll_top s.scroll_bottom s (omega arith) h)
      ]

  pub scroll_up-IsValid : (s : Screen) (count : ℤ) → IsValid s → IsValid (scroll_up s count fill)
  unfolding scroll_up
  scroll_up-IsValid s count h =
      touch-IsValid _ (iterate_inv IsValid _ (scroll_up_once fill) s scroll_up_once-IsValid h)

  pub scroll_down-IsValid :
      (s : Screen) (count : ℤ) → IsValid s → IsValid (scroll_down s count fill)
  unfolding scroll_down
  scroll_down-IsValid s count h =
      touch-IsValid _ (move_blanks-IsValid _ s.scroll_bottom s.scroll_top s h.bottom_lt h)

  pub index-IsValid : (s : Screen) → IsValid s → IsValid (index s fill)
  unfolding index
  index-IsValid s h = ground (arith, scroll_up-IsValid s (pos 1) h)

  pub reverse_index-IsValid : (s : Screen) → IsValid s → IsValid (reverse_index s fill)
  unfolding reverse_index
  reverse_index-IsValid s h = ground (arith, scroll_down-IsValid s (pos 1) h)

  pub next_line-IsValid : (s : Screen) → IsValid s → IsValid (next_line s fill)
  unfolding next_line
  next_line-IsValid s h = index-IsValid _ (carriage_return-IsValid s h)

  pub insert_lines-IsValid :
      (s : Screen) (count : ℤ) → IsValid s → IsValid (insert_lines s count fill)
  unfolding insert_lines
  insert_lines-IsValid s count h = elim (Bool-cases (outside_region s)) [
    | inl out ↦ rw out h
    | inr inside ↦ rw inside (
        touch-IsValid _ (
          carriage_return-IsValid _
            (move_blanks-IsValid _ s.scroll_bottom s.cursor.row s h.bottom_lt h)))
  ]

  pub delete_lines-IsValid :
      (s : Screen) (count : ℤ) → IsValid s → IsValid (delete_lines s count fill)
  unfolding delete_lines
  delete_lines-IsValid s count h = elim (Bool-cases (outside_region s)) [
    | inl out ↦ rw out h
    | inr inside ↦ rw inside (
        touch-IsValid _ (
          carriage_return-IsValid _
            (move_blanks-IsValid _ s.cursor.row s.scroll_bottom s h.row_lt h)))
  ]

pub set_scrollback_limit-IsValid :
    (s : Screen) (lines : ℤ) → IsValid s → IsValid (set_scrollback_limit s lines)
unfolding set_scrollback_limit touch
set_scrollback_limit-IsValid s lines h = ground (
  arith,
  length-trim-le (max_ℤ 0 lines) s.scrollback,
  All-trim s.columns (max_ℤ 0 lines) s.scrollback h.history_widths,
)
