-- ===== src/Screen/History.antt =====
-- What the scrollback keeps: scrolling a full-height region, and shrinking and growing the window.
use mathlib.Core.List.{append_assoc, append-nil}
use ar_term.Prelude.{
  ℕ, zero, suc, ◌+◌, ◌-◌, ◌≤◌, ◌<◌, ◌≡◌, refl, ap, sym, ◌∙◌, true, inl, inr, List, [], ◌∷◌, ◌++◌,
  arith, ltb, ltb→lt, length, length-append, drop, replicate, Bool-cases,
}
use ar_term.Prelude.Int.{ℤ, clamp}
use ar_term.Cell.{Attributes}
use ar_term.Screen.{Line, Screen, make_line, touch}
use ar_term.Screen.Scroll.{
  iterate, trim, move_blank, push_scrollback, feeds_scrollback, scroll_up_once, scroll_up,
}
use ar_term.Screen.Valid.{IsValid}
use ar_term.Screen.Valid.Scroll.{length-trim-le}
use ar_term.Screen.Regions.{shift_up_once}

pub trim_le : (limit : ℕ) (ls : List Line) → length ls ≤ limit → trim limit ls ≡ ls
unfolding trim
trim_le limit [] h = refl
trim_le limit (l ∷ ls) h = ground arith

-- Trimming early makes no difference.
trim-trim_append :
    (limit : ℕ) (xs ys : List Line) → trim limit (trim limit xs ++ ys) ≡ trim limit (xs ++ ys)
unfolding trim
trim-trim_append limit [] ys = refl
trim-trim_append limit (x ∷ xs) ys = elim (Bool-cases (ltb limit (suc (length xs)))) [
  | inl over ↦
      let longer : ltb limit (suc (length (xs ++ ys))) ≡ true =
        ground (arith, length-append xs ys) in
      rw (over, trim) (rw (longer, trim) (trim-trim_append limit xs ys))
  | inr under ↦ rw (under, trim)
]

-- The newest `limit` lines are kept.
trim-drop : (limit : ℕ) (ls : List Line) → trim limit ls ≡ drop (length ls - limit) ls
unfolding trim
trim-drop limit [] = ground arith
trim-drop limit (l ∷ ls) = elim (Bool-cases (ltb limit (suc (length ls)))) [
  | inl over ↦
      let more : suc (length ls) - limit ≡ suc (length ls - limit) =
        omega (arith, ltb→lt limit (suc (length ls)) over) in
      rw (over, trim, more) (trim-drop limit ls)
  | inr under ↦
      let none_gone : suc (length ls) - limit ≡ 0 = ground arith in rw (under, trim, none_gone)
]

-- The fields that decide whether a scroll feeds the scrollback.
feeds-scroll_up_once :
    (fill : Attributes) (s : Screen)
    → ((scroll_up_once fill s).scroll_top ≡ s.scroll_top)
      × ((scroll_up_once fill s).scroll_bottom ≡ s.scroll_bottom)
      × ((scroll_up_once fill s).rows ≡ s.rows)
      × ((scroll_up_once fill s).columns ≡ s.columns)
      × ((scroll_up_once fill s).scrollback_limit ≡ s.scrollback_limit)
unfolding scroll_up_once move_blank push_scrollback
feeds-scroll_up_once fill s = ground arith

record IsFull (s : Screen) (size : ℕ) : Type 0 where
  top : s.scroll_top ≡ 0
  bottom : s.scroll_bottom + 1 ≡ size
  rows : s.rows ≡ size
  limit : 0 < s.scrollback_limit
  fits : length s.scrollback ≤ s.scrollback_limit

feed_once :
    (fill : Attributes) (s : Screen) (x : Line) (rest : List Line)
    → IsFull s (length rest + 1)
    → s.lines ≡ x ∷ rest
    → ((scroll_up_once fill s).lines ≡ rest ++ make_line s.columns fill ∷ [])
      × ((scroll_up_once fill s).scrollback ≡ trim s.scrollback_limit (s.scrollback ++ x ∷ []))
unfolding scroll_up_once move_blank push_scrollback feeds_scrollback
feed_once fill s x rest h e =
    let blank = make_line s.columns fill in
    let once = shift_up_once [] rest [] x blank s.scroll_bottom (omega (arith, h.bottom)) in
    ground (
      arith,
      once,
      append-nil rest,
      append-nil (rest ++ blank ∷ []),
      h.top,
      h.bottom,
      h.rows,
      h.limit,
    )

feed_rounds :
    (n : ℕ) (fill : Attributes) (s : Screen) (gone kept : List Line)
    → IsFull s (length gone + length kept)
    → length gone ≡ n
    → s.lines ≡ gone ++ kept
    → ((iterate n (scroll_up_once fill) s).lines ≡ kept ++ replicate n (make_line s.columns fill))
      × ((iterate n (scroll_up_once fill) s).scrollback
          ≡ trim s.scrollback_limit (s.scrollback ++ gone))
unfolding iterate
feed_rounds zero fill s [] kept h g e =
    (rw append-nil e, rw append-nil (sym (trim_le s.scrollback_limit s.scrollback h.fits)))
feed_rounds zero fill s (x ∷ gone) kept h g e = absurd (omega arith)
feed_rounds (suc n) fill s [] kept h g e = absurd (omega arith)
feed_rounds (suc n) fill s (x ∷ gone) kept h g e =
    let t = scroll_up_once fill s in
    let blank = make_line s.columns fill in
    let (top, bottom, rows, columns, limit) = feeds-scroll_up_once fill s in
    let size : length (gone ++ kept) ≡ length gone + length kept = length-append gone kept in
    let full : IsFull s (length (gone ++ kept) + 1) = record {
      top = h.top;
      bottom = omega (arith, h.bottom);
      rows = omega (arith, h.rows);
      limit = h.limit;
      fits = h.fits;
    } in
    let (lines, history) = feed_once fill s x (gone ++ kept) full e in
    let next : IsFull t (length gone + length (kept ++ blank ∷ [])) = record {
      top = top ∙ h.top;
      bottom = omega (arith, bottom, h.bottom, length-append kept (blank ∷ []));
      rows = omega (arith, rows, h.rows, length-append kept (blank ∷ []));
      limit = omega (arith, limit, h.limit);
      fits = omega (
        arith,
        ap length history,
        limit,
        length-trim-le s.scrollback_limit (s.scrollback ++ x ∷ []),
      );
    } in
    let (rest_lines, rest_history) =
      feed_rounds n fill t gone (kept ++ blank ∷ []) next (omega arith)
        (lines ∙ append_assoc gone kept (blank ∷ [])) in
    (
      rest_lines ∙ rw (columns, append_assoc) refl,
      rest_history
          ∙ rw
              (
                limit,
                history,
                trim-trim_append s.scrollback_limit (s.scrollback ++ x ∷ []) gone,
                append_assoc,
              )
              refl,
    )

-- On a valid screen with a full-height region and a scrollback, `scrollUp` loses nothing but the
-- oldest history: the lines that leave the top (as many as asked for, at least one and at most
-- all) are appended to the scrollback, of which the newest lines up to the limit are kept, and
-- blank lines come in at the bottom.
pub scroll_up-history :
    (s : Screen) (count : ℤ) (fill : Attributes) (gone kept : List Line)
    → IsValid s
    → feeds_scrollback s ≡ true
    → 0 < s.scrollback_limit
    → s.lines ≡ gone ++ kept
    → length gone ≡ clamp count 1 s.rows
    → let t = scroll_up s count fill in
      let all = s.scrollback ++ gone in
      (t.lines ≡ kept ++ replicate (length gone) (make_line s.columns fill))
      × (t.scrollback ≡ drop (length all - s.scrollback_limit) all)
unfolding scroll_up touch
scroll_up-history s count fill gone kept h fed limit e g =
    let (top, bottom) = full_region s fed in
    let size : length gone + length kept ≡ s.rows =
      sym (length-append gone kept) ∙ ap length (sym e) ∙ h.lines_size in
    let full : IsFull s (length gone + length kept) = record {
      top = top;
      bottom = omega (arith, bottom, h.rows_pos);
      rows = sym size;
      limit = limit;
      fits = h.history_le;
    } in
    let (lines, history) = feed_rounds (length gone) fill s gone kept full refl e in
    let height : s.scroll_bottom - s.scroll_top + 1 ≡ s.rows =
      omega (arith, top, bottom, h.rows_pos) in
    rw (height, ← g) (lines, history ∙ trim-drop s.scrollback_limit (s.scrollback ++ gone))
  where
    full_region :
        (t : Screen)
        → feeds_scrollback t ≡ true
        → (t.scroll_top ≡ 0) × (t.scroll_bottom ≡ t.rows - 1)
    full_region t f = unfold feeds_scrollback in ground arith
