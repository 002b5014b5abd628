-- ===== src/Screen/Regions.antt =====
-- What the loops that erase and insert one line at a time do to a region as a whole.
use mathlib.Core.List.{append_assoc, append-nil}
use ar_term.Prelude.{
  ℕ, zero, suc, ◌+◌, ◌-◌, ◌≡◌, refl, ap, sym, ◌∙◌, false, List, [], ◌∷◌, ◌++◌, arith, length,
  length-append, replicate, erase_idx, insert_idx, pop_back,
}
use ar_term.Prelude.Int.{ℤ, clamp}
use ar_term.Cell.{Attributes}
use ar_term.Screen.{Line, Screen, make_line, touch, carriage_return}
use ar_term.Screen.Scroll.{
  iterate, move_blank, scroll_down, insert_lines, delete_lines, outside_region,
}

module _ {ℓ} {A : Type ℓ} where
  erase_idx-append :
      (xs : List A) (y : A) (ys : List A) → erase_idx (xs ++ y ∷ ys) (length xs) ≡ xs ++ ys
  erase_idx-append [] y ys = refl
  erase_idx-append (x ∷ xs) y ys = ap (x ∷◌) (erase_idx-append xs y ys)

  insert_idx-append : (xs ys : List A) (a : A) → insert_idx (xs ++ ys) (length xs) a ≡ xs ++ a ∷ ys
  insert_idx-append [] ys a = refl
  insert_idx-append (x ∷ xs) ys a = ap (x ∷◌) (insert_idx-append xs ys a)

  pop_back-append : (xs : List A) (a : A) → pop_back (xs ++ a ∷ []) ≡ xs
  pop_back-append [] a = refl
  pop_back-append (x ∷ []) a = refl
  pop_back-append (x ∷ y ∷ ys) a = ap (x ∷◌) (pop_back-append (y ∷ ys) a)

  -- The two ends of a run of blanks are alike.
  replicate-snoc : (n : ℕ) (a : A) → replicate n a ++ a ∷ [] ≡ a ∷ replicate n a
  replicate-snoc zero a = refl
  replicate-snoc (suc n) a = ap (a ∷◌) (replicate-snoc n a)

  -- One round upwards: the first line of the region goes, a blank comes at its end.
  pub shift_up_once :
      (above region below : List A) (x blank : A) (to : ℕ)
      → to ≡ length above + length region
      → insert_idx (erase_idx (above ++ ((x ∷ region) ++ below)) (length above)) to blank
        ≡ above ++ ((region ++ blank ∷ []) ++ below)
  shift_up_once above region below x blank to e =
      let whole : length (above ++ region) ≡ to = length-append above region ∙ sym e in
      rw
        (
          erase_idx-append above x (region ++ below),
          ← append_assoc above region below,
          ← whole,
          insert_idx-append (above ++ region) below blank,
        )
        (simp append_assoc)

  -- One round downwards: the last line of the region goes, a blank comes at its start.
  shift_down_once :
      (above region below : List A) (x blank : A) (from : ℕ)
      → from ≡ length above + length region
      → insert_idx (erase_idx (above ++ ((region ++ x ∷ []) ++ below)) from) (length above) blank
        ≡ above ++ ((blank ∷ region) ++ below)
  shift_down_once above region below x blank from e =
      let whole : length (above ++ region) ≡ from = length-append above region ∙ sym e in
      let regroup : above ++ ((region ++ x ∷ []) ++ below) ≡ (above ++ region) ++ x ∷ below =
        simp append_assoc in
      rw (
        regroup,
        ← whole,
        erase_idx-append (above ++ region) x below,
        append_assoc above region below,
        insert_idx-append above (region ++ below) blank,
      )

-- `n` rounds upwards over the whole region: its first `n` lines go, `n` blanks come at its end.
shift_up :
    (n : ℕ) (fill : Attributes) (s : Screen) (above gone kept below : List Line) (from to : ℕ)
    → from ≡ length above
    → length gone ≡ n
    → to + 1 ≡ length above + (length gone + length kept)
    → s.lines ≡ above ++ ((gone ++ kept) ++ below)
    → (iterate n (move_blank from to fill) s).lines
      ≡ above ++ ((kept ++ replicate n (make_line s.columns fill)) ++ below)
unfolding iterate move_blank
shift_up zero fill s above [] kept below from to f g t e = rw append-nil e
shift_up zero fill s above (x ∷ gone) kept below from to f g t e = absurd (omega arith)
shift_up (suc n) fill s above [] kept below from to f g t e = absurd (omega arith)
shift_up (suc n) fill s above (x ∷ gone) kept below from to f g t e =
    let blank = make_line s.columns fill in
    let once =
      shift_up_once above (gone ++ kept) below x blank to
        (omega (arith, length-append gone kept)) in
    let start : insert_idx (erase_idx s.lines from) to blank
        ≡ above ++ ((gone ++ (kept ++ blank ∷ [])) ++ below) =
      rw (e, f) (once ∙ simp append_assoc) in
    let rest =
      shift_up n fill (move_blank from to fill s) above gone (kept ++ blank ∷ []) below from to f
        (omega arith) (omega (arith, length-append kept (blank ∷ []))) start in
    rest ∙ ap (λ k. above ++ (k ++ below)) (append_assoc kept (blank ∷ []) (replicate n blank))

-- A list that is not empty, seen from its end.
pub snoc_view {ℓ} :
    {A : Type ℓ} (n : ℕ) (xs : List A)
    → length xs ≡ suc n
    → (init : List A) × (last : A) × (xs ≡ init ++ last ∷ []) × (length init ≡ n)
snoc_view n [] e = absurd (omega arith)
snoc_view n (x ∷ []) e = ([], x, refl, omega arith)
snoc_view zero (x ∷ y ∷ ys) e = absurd (omega arith)
snoc_view (suc n) (x ∷ y ∷ ys) e =
    let (init, last, split, size) = snoc_view n (y ∷ ys) (omega arith) in
    (x ∷ init, last, ap (x ∷◌) split, omega arith)

-- `n` rounds downwards: its last `n` lines go, `n` blanks come at its start.
shift_down :
    (n : ℕ) (fill : Attributes) (s : Screen) (above kept gone below : List Line) (from to : ℕ)
    → to ≡ length above
    → length gone ≡ n
    → from + 1 ≡ length above + (length kept + length gone)
    → s.lines ≡ above ++ ((kept ++ gone) ++ below)
    → (iterate n (move_blank from to fill) s).lines
      ≡ above ++ ((replicate n (make_line s.columns fill) ++ kept) ++ below)
unfolding iterate move_blank
shift_down zero fill s above kept [] below from to f g t e = simp append-nil at e
shift_down zero fill s above kept (x ∷ gone) below from to f g t e = absurd (omega arith)
shift_down (suc n) fill s above kept gone below from to f g t e =
    let blank = make_line s.columns fill in
    let (init, last, split, size) = snoc_view n gone g in
    let grouped : s.lines ≡ above ++ (((kept ++ init) ++ last ∷ []) ++ below) =
      e ∙ ap (λ k. above ++ ((kept ++ k) ++ below)) split ∙ simp append_assoc in
    let start : insert_idx (erase_idx s.lines from) to blank
        ≡ above ++ (((blank ∷ kept) ++ init) ++ below) =
      rw (grouped, f)
        (shift_down_once above (kept ++ init) below last blank from
          (omega (arith, length-append kept init))) in
    let rest =
      shift_down n fill (move_blank from to fill s) above (blank ∷ kept) init below from to f size
        (omega arith) start in
    rest
    ∙ ap (λ k. above ++ (k ++ below))
        (sym (append_assoc (replicate n blank) (blank ∷ []) kept)
          ∙ ap (λ k. k ++ kept) (replicate-snoc n blank))

-- Where the cursor is inside the region, `insertLines` pushes the lines from the cursor on down:
-- as many as were asked for (at least one, at most all) fall off the bottom of the region, blank
-- lines come at the cursor, and the lines above the cursor and below the region stay.
pub lines-insert_lines :
    (s : Screen) (count : ℤ) (fill : Attributes) (above kept gone below : List Line)
    → outside_region s ≡ false
    → s.lines ≡ above ++ ((kept ++ gone) ++ below)
    → length above ≡ s.cursor.row
    → length above + (length kept + length gone) ≡ s.scroll_bottom + 1
    → length gone ≡ clamp count 1 (s.scroll_bottom - s.cursor.row + 1)
    → (insert_lines s count fill).lines
      ≡ above ++ ((replicate (length gone) (make_line s.columns fill) ++ kept) ++ below)
unfolding insert_lines touch carriage_return
lines-insert_lines s count fill above kept gone below inside e f t g =
    rw (inside, ← g)
      (shift_down (length gone) fill s above kept gone below s.scroll_bottom s.cursor.row (sym f)
        refl (sym t) e)

-- With the cursor in the region, `deleteLines` removes lines at the cursor, one at least and no more
-- than there are down to the region's bottom; blank lines come at the bottom of the region, and all
-- else stays.
pub lines-delete_lines :
    (s : Screen) (count : ℤ) (fill : Attributes) (above gone kept below : List Line)
    → outside_region s ≡ false
    → s.lines ≡ above ++ ((gone ++ kept) ++ below)
    → length above ≡ s.cursor.row
    → length above + (length gone + length kept) ≡ s.scroll_bottom + 1
    → length gone ≡ clamp count 1 (s.scroll_bottom - s.cursor.row + 1)
    → (delete_lines s count fill).lines
      ≡ above ++ ((kept ++ replicate (length gone) (make_line s.columns fill)) ++ below)
unfolding delete_lines touch carriage_return
lines-delete_lines s count fill above gone kept below inside e f t g =
    rw (inside, ← g)
      (shift_up (length gone) fill s above gone kept below s.cursor.row s.scroll_bottom (sym f) refl
        (sym t) e)

-- `scrollDown` moves the whole region down and touches nothing outside it.
lines-scroll_down :
    (s : Screen) (count : ℤ) (fill : Attributes) (above kept gone below : List Line)
    → s.lines ≡ above ++ ((kept ++ gone) ++ below)
    → length above ≡ s.scroll_top
    → length above + (length kept + length gone) ≡ s.scroll_bottom + 1
    → length gone ≡ clamp count 1 (s.scroll_bottom - s.scroll_top + 1)
    → (scroll_down s count fill).lines
      ≡ above ++ ((replicate (length gone) (make_line s.columns fill) ++ kept) ++ below)
unfolding scroll_down touch
lines-scroll_down s count fill above kept gone below e f t g = rw (← g) (
    shift_down (length gone) fill s above kept gone below s.scroll_bottom s.scroll_top (sym f) refl
      (sym t) e)
