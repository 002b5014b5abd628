-- ===== src/Screen/Valid/Write.antt =====
-- `writeCharacter` keeps the screen valid and stays inside the line, but for a double-width glyph
-- on a screen of one column.
use ar_term.Prelude.{
  ℕ, ◌+◌, ◌-◌, ◌≤◌, ◌<◌, ◌≡◌, ◌≢◌, ◌⊎◌, refl, ◌∙◌, Bool, true, false, inl, inr, Option, none, some,
  arith, ltb, leb, get_elem?-some, if_lem, ◌==◌, length, length-set, set, Bool-cases, if◌then◌else◌,
  ◌&&◌,
}
use ar_term.Prelude.Int.{pos}
use ar_term.Cell.{Attributes, Cell}
use ar_term.Cell.Flag.{has_flag, wide_lead, wide_trail}
use ar_term.Screen.{Line, Screen, blank_cell, touch, cursor_line, put_cursor_line, set_line_wrapped}
use ar_term.Screen.Scroll.{move_blank, push_scrollback, scroll_up_once, scroll_up, index}
use ar_term.Screen.Edit.{insert_blank}
use ar_term.Screen.Write.{
  with_flag, write_cell, blank_at, blank_partner, put_glyph, prepare, advance_column, place, wrap,
  wrap_pending, write_glyph, write_character,
}
use ar_term.Screen.Valid.{IsValid, HasWidth, touch-IsValid, set_line_wrapped-IsValid}
use ar_term.Screen.Valid.Scroll.{iterate_inv, index-IsValid}
use ar_term.Screen.Valid.Edit.{cursor_line-HasWidth, put_cursor_line-IsValid, insert_blank-HasWidth}

-- The size and the cursor of one screen are those of another.
pub record SameFrame (s t : Screen) : Type 0 where
  pub columns_eq : t.columns ≡ s.columns
  pub rows_eq : t.rows ≡ s.rows
  pub cursor_eq : t.cursor ≡ s.cursor

scroll_up_once-SameFrame :
    (fill : Attributes) (s t : Screen) → SameFrame s t → SameFrame s (scroll_up_once fill t)
unfolding scroll_up_once move_blank push_scrollback
scroll_up_once-SameFrame fill s t h = ground arith

-- Scrolling moves neither the cursor nor the edges.
scroll_up-SameFrame : (s : Screen) (fill : Attributes) → SameFrame s (scroll_up s (pos 1) fill)
unfolding scroll_up touch
scroll_up-SameFrame s fill =
    let moved =
      iterate_inv (SameFrame s) _ (scroll_up_once fill) s (scroll_up_once-SameFrame fill s)
        (record { columns_eq = refl; rows_eq = refl; cursor_eq = refl }) in
    record { columns_eq = moved.columns_eq; rows_eq = moved.rows_eq; cursor_eq = moved.cursor_eq }

wrap_frame :
    (s : Screen) (a : Attributes)
    → ((wrap s a).columns ≡ s.columns) × ((wrap s a).cursor.column ≡ 0)
unfolding wrap index set_line_wrapped
wrap_frame s a =
    let marked = set_line_wrapped s s.cursor.row true in
    let start : Screen = record marked { cursor = record marked.cursor { column = 0 } } in
    let moved = scroll_up-SameFrame start a in ground (arith, moved.columns_eq, moved.cursor_eq)

wrap-IsValid : (s : Screen) (a : Attributes) → IsValid s → IsValid (wrap s a)
unfolding wrap
wrap-IsValid s a h =
    let marked = set_line_wrapped s s.cursor.row true in
    let m = set_line_wrapped-IsValid s h s.cursor.row true in
    index-IsValid a (record marked { cursor = record marked.cursor { column = 0 } })
      (at_start marked m)
  where
    at_start :
        (t : Screen) → IsValid t → IsValid (record t { cursor = record t.cursor { column = 0 } })
    at_start t k = ground arith

-- Some line of that width.
abbrev Keeps : ℕ → Option Line → Type 0
Keeps columns o = (k : Line) × (o ≡ some k) × HasWidth columns k

write_cell-Keeps :
    (columns column : ℕ) (cell : Cell) (l : Line)
    → column < columns
    → HasWidth columns l
    → Keeps columns (write_cell l column cell)
unfolding write_cell
write_cell-Keeps columns column cell l lt w =
    let inside : ltb column (length l) ≡ true = ground arith in
    (set l column cell, rw inside refl, length-set l column cell ∙ w)

blank_at-Keeps :
    (columns column : ℕ) (l : Line)
    → column < columns
    → HasWidth columns l
    → Keeps columns (blank_at column l)
unfolding blank_at
blank_at-Keeps columns column l lt w =
    let (cell, e) = get_elem?-some l column (omega (arith, w)) in
    rw (e, blank_at) (write_cell-Keeps columns column (blank_cell cell.attributes) l lt w)

blank_partner-Keeps :
    (columns column : ℕ) (l : Line)
    → HasWidth columns l
    → Keeps columns (blank_partner columns column l)
unfolding blank_partner
blank_partner-Keeps columns column l w = elim (Bool-cases (leb columns column)) [
  | inl outside ↦ rw outside (l, refl, w)
  | inr inside ↦
      let (cell, e) = get_elem?-some l column (ground (arith, inside, w)) in
      let in_line : column < columns = ground (arith, inside) in
      let trail = has_flag cell.attributes.flags wide_trail && ltb 0 column in
      let lead = has_flag cell.attributes.flags wide_lead && ltb (column + 1) columns in
      rw (inside, e)
        (elim (Bool-cases trail) [
          | inl behind ↦ rw behind (blank_at-Keeps columns (column - 1) l (omega arith) w)
          | inr other ↦ rw other (elim (Bool-cases lead) [
            | inl before ↦
                rw before (blank_at-Keeps columns (column + 1) l (ground (arith, before)) w)
            | inr neither ↦ rw neither (l, refl, w)
          ])
        ])
]

-- The blanking of both columns of the glyph.
blank_both-Keeps :
    (columns column width : ℕ) (l : Line)
    → HasWidth columns l
    → Keeps columns (elim (blank_partner columns column l) [
      | none ↦ none
      | some first ↦ if width == 2 then blank_partner columns (column + 1) first else some first
    ])
blank_both-Keeps columns column width l w =
    let (first, e, kept) = blank_partner-Keeps columns column l w in
    rw e (
      if_lem (Keeps columns) (width == 2) _ _ (blank_partner-Keeps columns (column + 1) first kept)
        (first, refl, kept))

prepare-Keeps :
    (columns column width : ℕ) (a : Attributes) (b : Bool) (l : Line)
    → HasWidth columns l
    → Keeps columns (prepare columns column width a b l)
unfolding prepare
prepare-Keeps columns column width a true l w = blank_both-Keeps columns column width _ (
    iterate_inv (HasWidth columns) width (insert_blank column (blank_cell a)) l
      (λ k v. insert_blank-HasWidth columns column (blank_cell a) k v) w)
prepare-Keeps columns column width a false l w = blank_both-Keeps columns column width l w

-- There is room for a glyph of this width at the cursor.
abbrev HasRoom : ℕ → Screen → Type 0
HasRoom width s = (width ≢ 2) ⊎ (s.cursor.column + 1 < s.columns)

put_glyph-Keeps :
    (columns column code_point width : ℕ) (a : Attributes) (l : Line)
    → HasWidth columns l
    → column < columns
    → (width ≢ 2) ⊎ (column + 1 < columns)
    → Keeps columns (put_glyph column code_point width a l)
unfolding put_glyph
put_glyph-Keeps columns column code_point width a l w here room = elim (Bool-cases (width == 2)) [
  | inl wide ↦
      let lead : Cell = record { character = code_point; attributes = with_flag a true } in
      let trail : Cell = record { character = 0; attributes = with_flag a false } in
      let (led, e, kept) = write_cell-Keeps columns column lead l here w in
      rw (wide, e)
        (write_cell-Keeps columns (column + 1) trail led (ground (arith, wide, room)) kept)
  | inr narrow ↦
      rw narrow (
        write_cell-Keeps columns column (record { character = code_point; attributes = a }) l here
          w)
]

advance_column-IsValid : (width : ℕ) (s : Screen) → IsValid s → IsValid (advance_column width s)
unfolding advance_column
advance_column-IsValid width s h = ground arith

place-some :
    (s : Screen) (code_point width : ℕ) (a : Attributes) (b : Bool)
    → IsValid s
    → HasRoom width s
    → (t : Screen) × (place s code_point width a b ≡ some t) × IsValid t
unfolding place
place-some s code_point width a b h room =
    let (l, ready, w) =
      prepare-Keeps s.columns s.cursor.column width a b (cursor_line s)
        (cursor_line-HasWidth s h) in
    let (k, e, kept) =
      put_glyph-Keeps s.columns s.cursor.column code_point width a l w h.column_lt room in
    (
      touch (advance_column width (put_cursor_line s k)),
      rw (ready, e, place),
      touch-IsValid _ (advance_column-IsValid width _ (put_cursor_line-IsValid s h k kept)),
    )

wrap_pending-IsValid :
    (s : Screen) (a : Attributes) (b : Bool) → IsValid s → IsValid (wrap_pending s a b)
unfolding wrap_pending
wrap_pending-IsValid s a b h = elim (Bool-cases (s.cursor.pending_wrap && b)) [
  | inl due ↦ rw due (settled (wrap s a) (wrap-IsValid s a h))
  | inr not_due ↦ rw not_due h
]
  where
    settled :
        (t : Screen)
        → IsValid t
        → IsValid (record t { cursor = record t.cursor { pending_wrap = false } })
    settled t k = ground arith

wrap_pending-columns :
    (s : Screen) (a : Attributes) (b : Bool) → (wrap_pending s a b).columns ≡ s.columns
unfolding wrap_pending
wrap_pending-columns s a b = ground (arith, wrap_frame s a)

-- Some screen, and a valid one.
abbrev pub Succeeds : Option Screen → Type 0
Succeeds o = (t : Screen) × (o ≡ some t) × IsValid t

write_glyph-Succeeds :
    (s : Screen) (code_point width : ℕ) (a : Attributes) (b wraps : Bool)
    → IsValid s
    → (width ≢ 2) ⊎ (2 ≤ s.columns)
    → Succeeds (write_glyph s code_point width a b wraps)
unfolding write_glyph
write_glyph-Succeeds s code_point width a b wraps h room =
    elim (Bool-cases (width == 2 && s.cursor.column == s.columns - 1)) [
      | inl edge ↦ rw edge (at_edge wraps edge)
      | inr inside ↦ rw inside (place-some s code_point width a b h (ground arith))
    ]
  where
    at_edge :
        (c : Bool)
        → (width == 2 && s.cursor.column == s.columns - 1) ≡ true
        → Succeeds (if c then place (wrap s a) code_point width a b else some s)
    at_edge false e = (s, refl, h)
    at_edge true e =
        place-some (wrap s a) code_point width a b (wrap-IsValid s a h)
          (ground (arith, wrap_frame s a))

pub write_character-IsValid :
    (s : Screen) (code_point width : ℕ) (a : Attributes) (insert_mode auto_wrap : Bool)
    → IsValid s
    → (width ≢ 2) ⊎ (2 ≤ s.columns)
    → Succeeds (write_character s code_point width a insert_mode auto_wrap)
unfolding write_character
write_character-IsValid s code_point width a insert_mode auto_wrap h room =
    write_glyph-Succeeds (wrap_pending s a auto_wrap) code_point _ a insert_mode auto_wrap
      (wrap_pending-IsValid s a auto_wrap h) (ground (arith, wrap_pending-columns s a auto_wrap))

place-none :
    (s : Screen) (code_point : ℕ) (a : Attributes) (b : Bool)
    → IsValid s
    → s.columns ≡ 1
    → place s code_point 2 a b ≡ none
unfolding place
place-none s code_point a b h one =
    let (l, ready, w) =
      prepare-Keeps s.columns s.cursor.column 2 a b (cursor_line s) (cursor_line-HasWidth s h) in
    let lost : put_glyph s.cursor.column code_point 2 a l ≡ none =
      no_room s.cursor.column l (omega (arith, w)) in
    rw (ready, lost, place)
  where
    no_room :
        (column : ℕ) (l : Line) → length l ≤ column + 1 → put_glyph column code_point 2 a l ≡ none
    no_room column l le =
        let lead : Cell = record { character = code_point; attributes = with_flag a true } in
        unfold put_glyph write_cell in ground (arith, length-set l column lead)

-- On every valid screen of one column, with automatic wrapping, a double-width character is
-- written past the end of the line: the wrap to the next line finds no more room there.
pub write_character-one_column :
    (s : Screen) (code_point : ℕ) (a : Attributes) (insert_mode : Bool)
    → IsValid s
    → s.columns ≡ 1
    → write_character s code_point 2 a insert_mode true ≡ none
unfolding write_character write_glyph
write_character-one_column s code_point a insert_mode h one =
    let t = wrap_pending s a true in
    let k = wrap_pending-IsValid s a true h in
    let size : t.columns ≡ 1 = wrap_pending-columns s a true ∙ one in
    let lost =
      place-none (wrap t a) code_point a insert_mode (wrap-IsValid t a k)
        ((wrap_frame t a).0 ∙ size) in
    ground (arith, lost, k.column_lt)
