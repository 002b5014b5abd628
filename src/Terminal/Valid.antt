-- ===== src/Terminal/Valid.antt =====
-- What the operations on modes, buffers and saved cursors of src/terminal/Terminal.cpp keep.
pub mod SetMode
use ar_term.Prelude.{
  ℕ, zero, suc, ◌+◌, ◌≤◌, ◌≡◌, refl, Bool, true, false, inl, inr, Bool-cases, arith, ltb, ◌||◌,
  ◌==◌, if◌then◌else◌,
}
use ar_term.Prelude.Int.{ℤ, pos}
use ar_term.Cell.{default_attributes}
use ar_term.Screen.Frame.{Fits}
use ar_term.Screen.Fits.{
  move_cursor-Fits, reset-Fits, erase_in_display-Fits, reset_scroll_region-Fits,
  clear_scrollback-Fits,
}
use ar_term.Screen.{new, reset_tab_stops}
use ar_term.Prelude.{All, length, if_lem}
use ar_term.Prelude.Int.{max_ℤ, negsuc}
use ar_term.Screen.{Screen, CursorState}
use ar_term.Screen.Edit.{all}
use ar_term.Screen.Valid.{new-IsValid}
use ar_term.VtParser.{CsiSequence}
use ar_term.Terminal.Sgr.{code_at}
use ar_term.Terminal.Modes.{
  Terminal, Outcome, on_active, start, save_cursor, restore_from, restore_cursor,
  use_alternate_screen, reset, soft_reset,
}
use ar_term.Terminal.SetMode.{
  track_mouse, encode_mouse, switch_and_clear, set_dec_mode, set_xterm_mode, set_private_mode,
  set_ansi_mode, set_each, set_mode,
}

-- A terminal of that size. Both buffers are valid screens, the active buffer is the one that the mode names, and the index
-- into the two charsets is in bounds, also when a saved cursor is restored. Both buffers have the
-- terminal's size, and the title is short and without controls below 0x20.
pub record IsValid (columns rows : ℕ) (t : Terminal) : Type 0 where
  pub columns_eq : t.columns ≡ columns
  pub rows_eq : t.rows ≡ rows
  pub normal_fits : Fits columns rows t.normal
  pub alternate_fits : Fits columns rows t.alternate
  pub agrees : t.is_alternate_active ≡ t.modes.alternate_screen
  pub charset_le : t.active_charset ≤ 1
  pub saved_le : t.saved_cursor.charset ≤ 1
  pub saved_alternate_le : t.saved_alternate_cursor.charset ≤ 1
  pub title_clean : All (λ unit. 0x20 ≤ unit) t.title
  pub title_le : length t.title ≤ 256

pub max_ℤ-max_ℤ : (size : ℤ) → max_ℤ 1 (pos (max_ℤ 1 size)) ≡ max_ℤ 1 size
unfolding max_ℤ
max_ℤ-max_ℤ (pos n) = ground arith
max_ℤ-max_ℤ (negsuc n) = ground arith

pub start-IsValid :
    (columns rows : ℤ) → IsValid (max_ℤ 1 columns) (max_ℤ 1 rows) (start columns rows)
unfolding start new reset_tab_stops
start-IsValid columns rows = record {
  columns_eq = refl;
  rows_eq = refl;
  normal_fits = (new-IsValid _ _ _, (max_ℤ-max_ℤ columns, max_ℤ-max_ℤ rows));
  alternate_fits = (new-IsValid _ _ _, (max_ℤ-max_ℤ columns, max_ℤ-max_ℤ rows));
  agrees = refl;
  charset_le = omega arith;
  saved_le = omega arith;
  saved_alternate_le = omega arith;
  title_clean = tt;
  title_le = omega arith;
}

abbrev pub Keeps : ℕ → ℕ → Outcome → Type 0
Keeps columns rows o = IsValid columns rows o.0

module _ {columns rows : ℕ} where
  pub on_active-IsValid :
      (change : Screen → Screen) (t : Terminal)
      → ((s : Screen) → Fits columns rows s → Fits columns rows (change s))
      → IsValid columns rows t
      → IsValid columns rows (on_active change t)
  on_active-IsValid change t keep h = elim (Bool-cases t.is_alternate_active) [
    | inl second ↦ ground (arith, keep t.alternate h.alternate_fits)
    | inr first ↦ ground (arith, keep t.normal h.normal_fits)
  ]

  pub save_cursor-IsValid :
      (t : Terminal) → IsValid columns rows t → IsValid columns rows (save_cursor t)
  unfolding save_cursor
  save_cursor-IsValid t h = ground arith

  restore_from-IsValid :
      (state : CursorState) (t : Terminal)
      → state.charset ≤ 1
      → IsValid columns rows t
      → IsValid columns rows (restore_from state t)
  unfolding restore_from
  restore_from-IsValid state t le h =
      on_active-IsValid _ _ (λ s k. move_cursor-Fits s (pos state.row) (pos state.column) k)
        (record {
          columns_eq = h.columns_eq;
          rows_eq = h.rows_eq;
          normal_fits = h.normal_fits;
          alternate_fits = h.alternate_fits;
          agrees = h.agrees;
          charset_le = le;
          saved_le = h.saved_le;
          saved_alternate_le = h.saved_alternate_le;
          title_clean = h.title_clean;
          title_le = h.title_le;
        })

  pub restore_cursor-IsValid :
      (t : Terminal) → IsValid columns rows t → IsValid columns rows (restore_cursor t)
  unfolding restore_cursor
  restore_cursor-IsValid t h =
      restore_from-IsValid
        (if t.modes.alternate_screen then t.saved_alternate_cursor else t.saved_cursor) t
        (chosen_le t.modes.alternate_screen) h
    where
      chosen_le : (b : Bool) → (if b then t.saved_alternate_cursor else t.saved_cursor).charset ≤ 1
      chosen_le true = h.saved_alternate_le
      chosen_le false = h.saved_le

  pub use_alternate_screen-IsValid :
      (enabled clear : Bool) (t : Terminal)
      → IsValid columns rows t
      → IsValid columns rows (use_alternate_screen enabled clear t).0
  unfolding use_alternate_screen
  use_alternate_screen-IsValid false clear t h = ground arith
  use_alternate_screen-IsValid true clear t h =
      let fresh =
        move_cursor-Fits _ (pos 0) (pos 0) (reset-Fits t.alternate t.attributes h.alternate_fits) in
      ground (arith, fresh)

  pub reset-IsValid : (t : Terminal) → IsValid columns rows t → IsValid columns rows (reset t).0
  unfolding reset
  reset-IsValid t h = record {
    columns_eq = h.columns_eq;
    rows_eq = h.rows_eq;
    normal_fits = clear_scrollback-Fits _ (reset-Fits t.normal default_attributes h.normal_fits);
    alternate_fits = reset-Fits t.alternate default_attributes h.alternate_fits;
    agrees = refl;
    charset_le = omega arith;
    saved_le = omega arith;
    saved_alternate_le = omega arith;
    title_clean = tt;
    title_le = omega arith;
  }

  pub soft_reset-IsValid :
      (t : Terminal) → IsValid columns rows t → IsValid columns rows (soft_reset t)
  unfolding soft_reset
  soft_reset-IsValid t h =
      on_active-IsValid _ _
        (λ s k. move_cursor-Fits _ (pos 0) (pos 0) (reset_scroll_region-Fits s k))
        (record {
          columns_eq = h.columns_eq;
          rows_eq = h.rows_eq;
          normal_fits = h.normal_fits;
          alternate_fits = h.alternate_fits;
          agrees = h.agrees;
          charset_le = omega arith;
          saved_le = h.saved_le;
          saved_alternate_le = h.saved_alternate_le;
          title_clean = h.title_clean;
          title_le = h.title_le;
        })

  pub switch_and_clear-IsValid :
      (enabled : Bool) (t : Terminal)
      → IsValid columns rows t
      → IsValid columns rows (switch_and_clear enabled t).0
  unfolding switch_and_clear
  switch_and_clear-IsValid true t h =
      use_alternate_screen-IsValid true true _ (save_cursor-IsValid t h)
  switch_and_clear-IsValid false t h =
      restore_cursor-IsValid _ (use_alternate_screen-IsValid false true t h)
