-- ===== src/Screen/Height.antt =====
-- What a change of height does to the lines and the scrollback, round by round.
use mathlib.Core.List.{append_assoc, append-nil}
use ar_term.Prelude.{
  ℕ, zero, suc, ◌+◌, ◌-◌, ◌≤◌, ◌<◌, ◌≡◌, refl, ap, sym, ◌∙◌, false, some, List, [], ◌∷◌, ◌++◌,
  arith, length, length-append, min, max, resize_to_self,
}
use ar_term.Prelude.Int.{pos, clamp, clamp_eq, max_ℤ}
use ar_term.Cell.{default_attributes}
use ar_term.Screen.{
  Line, Screen, make_line, touch, move_cursor, clamp_cursor, reset_scroll_region, reset_tab_stops,
}
use ar_term.Screen.Scroll.{iterate, push_scrollback}
use ar_term.Screen.Resize.{drop_top, shrink, split_last, grow_by, finish_resize}
use ar_term.Screen.Regions.{snoc_view}
use ar_term.Screen.History.{trim_le}

-- The parts of a screen that a change of its height moves about.
pub record Holds (s : Screen) (columns limit row : ℕ) (lines history : List Line) : Type 0 where
  pub columns_eq : s.columns ≡ columns
  pub limit_eq : s.scrollback_limit ≡ limit
  pub row_eq : s.cursor.row ≡ row
  pub lines_eq : s.lines ≡ lines
  pub history_eq : s.scrollback ≡ history

drop_rounds :
    (n : ℕ) (s : Screen) (columns limit row : ℕ) (gone kept history : List Line)
    → length gone ≡ n
    → 0 < limit
    → length history + n ≤ limit
    → Holds s columns limit row (gone ++ kept) history
    → Holds (iterate n drop_top s) columns limit (row - n) kept (history ++ gone)
unfolding iterate drop_top push_scrollback
drop_rounds zero s columns limit row [] kept history g pos_limit room h =
    ground (arith, append-nil history)
drop_rounds zero s columns limit row (x ∷ gone) kept history g pos_limit room h =
    absurd (omega arith)
drop_rounds (suc n) s columns limit row [] kept history g pos_limit room h = absurd (omega arith)
drop_rounds (suc n) s columns limit row (x ∷ gone) kept history g pos_limit room h =
    let kept_all =
      trim_le limit (history ++ x ∷ []) (omega (arith, length-append history (x ∷ []))) in
    let once : Holds (drop_top s) columns limit (row - 1) (gone ++ kept) (history ++ x ∷ []) =
      ground (arith, kept_all, h.lines_eq, h.history_eq, h.limit_eq) in
    let rest =
      drop_rounds n (drop_top s) columns limit (row - 1) gone kept (history ++ x ∷ []) (omega arith)
        pos_limit (omega (arith, length-append history (x ∷ []))) once in
    record {
      columns_eq = rest.columns_eq;
      limit_eq = rest.limit_eq;
      row_eq = rest.row_eq ∙ omega arith;
      lines_eq = rest.lines_eq;
      history_eq = rest.history_eq ∙ append_assoc history (x ∷ []) gone;
    }

split_last-append : (xs : List Line) (y : Line) → split_last (xs ++ y ∷ []) ≡ some (xs, y)
unfolding split_last
split_last-append [] y = refl
split_last-append (x ∷ xs) y = rw (split_last-append xs y, split_last)

pub grow_rounds :
    (n : ℕ) (s : Screen) (columns limit row : ℕ) (lines older back : List Line)
    → length back ≡ n
    → Holds s columns limit row lines (older ++ back)
    → Holds (grow_by n s) columns limit (row + n) (back ++ lines) older
unfolding grow_by
grow_rounds zero s columns limit row lines older [] g h = ground (arith, append-nil older)
grow_rounds zero s columns limit row lines older (x ∷ back) g h = absurd (omega arith)
grow_rounds (suc n) s columns limit row lines older back g h =
    let (init, last, split, size) = snoc_view n back g in
    let regroup : s.scrollback ≡ (older ++ init) ++ last ∷ [] =
      h.history_eq ∙ ap (λ k. older ++ k) split ∙ sym (append_assoc older init (last ∷ [])) in
    let found : split_last s.scrollback ≡ some (older ++ init, last) =
      ap split_last regroup ∙ split_last-append (older ++ init) last in
    let t : Screen = record s {
      lines = last ∷ s.lines;
      scrollback = older ++ init;
      wrapped = false ∷ s.wrapped;
      cursor = record s.cursor { row = s.cursor.row + 1 };
    } in
    let once : Holds t columns limit (row + 1) (last ∷ lines) (older ++ init) = record {
      columns_eq = h.columns_eq;
      limit_eq = h.limit_eq;
      row_eq = omega (arith, h.row_eq);
      lines_eq = ap (last ∷◌) h.lines_eq;
      history_eq = refl;
    } in
    let rest = grow_rounds n t columns limit (row + 1) (last ∷ lines) older init size once in
    rw (found, grow_by)
      (record {
        columns_eq = rest.columns_eq;
        limit_eq = rest.limit_eq;
        row_eq = rest.row_eq ∙ omega arith;
        lines_eq =
            rest.lines_eq
            ∙ sym (append_assoc init (last ∷ []) lines)
            ∙ ap (λ k. k ++ lines) (sym split);
        history_eq = rest.history_eq;
      })

pub max_pos : (n : ℕ) → 0 < n → max_ℤ 1 (pos n) ≡ n
unfolding max_ℤ
max_pos n h = ground arith

-- The last step, where the lines have the right number already.
pub finish-Holds :
    (rows : ℕ) (s : Screen) (columns limit row : ℕ) (lines history : List Line)
    → length lines ≡ rows
    → row < rows
    → Holds s columns limit row lines history
    → Holds (finish_resize rows s) columns limit row lines history
      × ((finish_resize rows s).rows ≡ rows)
unfolding finish_resize touch clamp_cursor move_cursor reset_tab_stops reset_scroll_region
finish-Holds rows s columns limit row lines history size lt h =
    let same =
      resize_to_self rows (make_line s.columns default_attributes) s.lines
        (ap length h.lines_eq ∙ size) in
    let stays : clamp (pos s.cursor.row) 0 (rows - 1) ≡ s.cursor.row =
      clamp_eq s.cursor.row 0 (rows - 1) (omega arith) (omega (arith, h.row_eq)) in
    (
      record {
        columns_eq = h.columns_eq;
        limit_eq = h.limit_eq;
        row_eq = stays ∙ h.row_eq;
        lines_eq = same ∙ h.lines_eq;
        history_eq = h.history_eq;
      },
      refl,
    )

pub shrink-Holds :
    (s : Screen) (gone kept : List Line)
    → s.rows ≡ length gone + length kept
    → 0 < length gone
    → length s.scrollback + length gone ≤ s.scrollback_limit
    → s.lines ≡ gone ++ kept
    → Holds
        (shrink (length kept) s)
        s.columns
        s.scrollback_limit
        (s.cursor.row - length gone)
        kept
        (s.scrollback ++ gone)
unfolding shrink
shrink-Holds s gone kept rows lt room e =
    let n = length gone in
    let slack = s.cursor.row - (length kept - 1) in
    let surplus : s.rows - length kept ≡ n = omega arith in
    let all_of : min n (max slack n) ≡ n = omega arith in
    let start : Holds s s.columns s.scrollback_limit s.cursor.row (gone ++ kept) s.scrollback =
      record {
        columns_eq = refl;
        limit_eq = refl;
        row_eq = refl;
        lines_eq = e;
        history_eq = refl;
      } in
    let rounds =
      drop_rounds n s s.columns s.scrollback_limit s.cursor.row gone kept s.scrollback refl
        (omega arith) room start in
    rw (surplus, all_of)
      (record {
        columns_eq = rounds.columns_eq;
        limit_eq = rounds.limit_eq;
        row_eq = rounds.row_eq;
        lines_eq = resize_to_self (length kept) [] _ (ap length rounds.lines_eq) ∙ rounds.lines_eq;
        history_eq = rounds.history_eq;
      })

-- The same with no condition on the scrollback, which may drop lines or keep none.
drop_rounds_grid :
    (n : ℕ) (s : Screen) (columns row : ℕ) (gone kept : List Line)
    → length gone ≡ n
    → s.columns ≡ columns
    → s.cursor.row ≡ row
    → s.lines ≡ gone ++ kept
    → let t = iterate n drop_top s in
      (t.columns ≡ columns) × (t.cursor.row ≡ row - n) × (t.lines ≡ kept)
unfolding iterate drop_top push_scrollback
drop_rounds_grid zero s columns row [] kept g c r e = (c, r ∙ omega arith, e)
drop_rounds_grid zero s columns row (x ∷ gone) kept g c r e = absurd (omega arith)
drop_rounds_grid (suc n) s columns row [] kept g c r e = absurd (omega arith)
drop_rounds_grid (suc n) s columns row (x ∷ gone) kept g c r e =
    let (same, moved, left) =
      drop_rounds_grid n (drop_top s) columns (row - 1) gone kept (omega arith) (ground (arith, c))
        (ground (arith, r)) (ground (arith, e)) in
    (same, moved ∙ omega arith, left)

pub shrink_grid :
    (s : Screen) (gone kept : List Line)
    → s.rows ≡ length gone + length kept
    → s.lines ≡ gone ++ kept
    → let t = shrink (length kept) s in
      Holds t s.columns t.scrollback_limit (s.cursor.row - length gone) kept t.scrollback
unfolding shrink
shrink_grid s gone kept rows e =
    let n = length gone in
    let slack = s.cursor.row - (length kept - 1) in
    let surplus : s.rows - length kept ≡ n = omega arith in
    let all_of : min n (max slack n) ≡ n = omega arith in
    let (columns, row, lines) =
      drop_rounds_grid n s s.columns s.cursor.row gone kept refl refl refl e in
    rw (surplus, all_of)
      (record {
        columns_eq = columns;
        limit_eq = refl;
        row_eq = row;
        lines_eq = resize_to_self (length kept) [] _ (ap length lines) ∙ lines;
        history_eq = refl;
      })
