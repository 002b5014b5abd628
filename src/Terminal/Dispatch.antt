-- ===== src/Terminal/Dispatch.antt =====
-- `csiDispatch` of src/terminal/Terminal.cpp keeps the terminal valid.
use ar_term.Prelude.{
  ℕ, ◌^◌, ◌≤◌, inl, inr, true, false, ◌||◌, if_lem, arith, leb, ◌==◌, if◌then◌else◌, Bool-cases,
  get_or, All-get_or,
}
use ar_term.Prelude.Int.{ℤ, pos, negsuc, max_ℤ, ltb_ℤ, ◌+ℤ◌, pos_part, neg, pred_ℤ}
use ar_term.Screen.{Screen}
use ar_term.Screen.Tabs.{clear_tab_stop}
use ar_term.Screen.Valid.Scroll.{iterate_inv}
use ar_term.Screen.Frame.{Fits}
use ar_term.Screen.Fits.{
  move_cursor-Fits, move_cursor_relative-Fits, set_column-Fits, set_row-Fits, carriage_return-Fits,
  reset_scroll_region-Fits, set_scroll_region-Fits, clear_scrollback-Fits, scroll_up-Fits,
  scroll_down-Fits, insert_lines-Fits, delete_lines-Fits, erase_in_line-Fits, erase_in_display-Fits,
  erase_characters-Fits, insert_characters-Fits, delete_characters-Fits, put_tab_stop-Fits,
  clear_all_tab_stops-Fits,
}
use ar_term.VtParser.{CsiSequence, parameter, positive_parameter}
use ar_term.VtParser.Invariant.{IsParameter, SequenceFits}
use ar_term.Terminal.Sgr.{code_at}
use ar_term.Terminal.Modes.{Terminal}
use ar_term.Terminal.Csi.{
  count_of, erase_mode_for, draw, next_tab, previous_tab, report_device_status, limit_rows,
  set_region, csi_control, csi_edit, csi_dispatch,
}
use ar_term.Terminal.Valid.{
  IsValid, Keeps, on_active-IsValid, save_cursor-IsValid, restore_cursor-IsValid,
  soft_reset-IsValid,
}
use ar_term.Terminal.Valid.SetMode.{set_mode-IsValid}

next_tab-Fits :
    {columns rows : ℕ} (s : Screen) → Fits columns rows s → Fits columns rows (next_tab s)
unfolding next_tab
next_tab-Fits s h = set_column-Fits s _ h

previous_tab-Fits :
    {columns rows : ℕ} (s : Screen) → Fits columns rows s → Fits columns rows (previous_tab s)
unfolding previous_tab
previous_tab-Fits s h = set_column-Fits s _ h

-- A count that the parser sends is below a million.
count-le : (s : CsiSequence) → SequenceFits s → max_ℤ 1 (count_of s) ≤ 999999
unfolding positive_parameter parameter max_ℤ
count-le s h = elim (Bool-cases (leb s.parameter_count 0)) [
  | inl none_given ↦ rw none_given (omega arith)
  | inr given ↦ rw given (
      bound (get_or s.parameters 0 (pos 1))
        (All-get_or IsParameter s.parameters 0 (pos 1) h.values (omega (arith, h.parameters_size))))
]
  where
    bound :
        (v : ℤ)
        → IsParameter v
        → max_ℤ 1 (
            if ltb_ℤ (pos 0) (if ltb_ℤ v (pos 0) then pos 1 else v)
            then (if ltb_ℤ v (pos 0) then pos 1 else v)
            else pos 1)
          ≤ 999999
    bound (pos n) le = unfold max_ℤ in ground arith
    bound (negsuc n) le = unfold max_ℤ in ground arith

module _ {columns rows : ℕ} (s : CsiSequence) (t : Terminal) (h : IsValid columns rows t) where
  abbrev Here : Screen → Type 0
  Here = Fits columns rows

  draw-Keeps :
      (change : Screen → Screen)
      → ((q : Screen) → Here q → Here (change q))
      → Keeps columns rows (draw change t)
  draw-Keeps change keep = on_active-IsValid change t keep h

  report-Keeps : Keeps columns rows (report_device_status s t)
  unfolding report_device_status
  report-Keeps =
      if_lem (Keeps columns rows) (code_at s 0 == 5) _ _ h
        (if_lem (Keeps columns rows) (code_at s 0 == 6) _ _ h h)

  set_region-Fits : (q : Screen) → Here q → Here (set_region s t q)
  unfolding set_region limit_rows
  set_region-Fits q k =
      let bottom = pred_ℤ (positive_parameter s 1 (pos t.rows)) in
      move_cursor-Fits (limit_rows s t q) _ _ (
        if_lem Here (s.parameter_count == 0) _ _ (reset_scroll_region-Fits q k)
          (set_scroll_region-Fits q (pred_ℤ (count_of s)) bottom k))

  csi_control-Keeps : Keeps columns rows (csi_control s t)
  unfolding csi_control clear_tab_stop
  csi_control-Keeps =
      if_lem (Keeps columns rows) (s.final == b'S') _ _
        (draw-Keeps _ (λ q k. scroll_up-Fits t.attributes q (count_of s) k))
        (if_lem (Keeps columns rows) (s.final == b'T') _ _
          (draw-Keeps _ (λ q k. scroll_down-Fits t.attributes q (count_of s) k))
          (if_lem (Keeps columns rows) (s.final == b'c') _ _ h (
            if_lem (Keeps columns rows) (s.final == b'g') _ _
              (draw-Keeps _ (λ q k.
                if_lem Here (code_at s 0 == 3) _ _ (clear_all_tab_stops-Fits q k)
                  (put_tab_stop-Fits q (pos q.cursor.column) false k)))
              (if_lem (Keeps columns rows) (s.final == b'h') _ _ (set_mode-IsValid s true t h) (
                if_lem (Keeps columns rows) (s.final == b'l') _ _ (set_mode-IsValid s false t h) (
                  if_lem (Keeps columns rows) (s.final == b'm') _ _ (ground (arith, h)) (
                    if_lem (Keeps columns rows) (s.final == b'n') _ _ report-Keeps (
                      if_lem (Keeps columns rows) (s.final == b'p') _ _
                        (if_lem (IsValid columns rows) (s.intermediate == b'!') _ _
                          (soft_reset-IsValid t h) h)
                        (if_lem (Keeps columns rows) (s.final == b'r') _ _
                          (if_lem (IsValid columns rows) (s.private_marker == b'?') _ _ h
                            (on_active-IsValid _ t set_region-Fits h))
                          (if_lem (Keeps columns rows) (s.final == b's') _ _
                            (save_cursor-IsValid t h)
                            (if_lem (Keeps columns rows) (s.final == b'u') _ _
                              (restore_cursor-IsValid t h)
                              (if_lem (Keeps columns rows) (s.final == b't') _ _ h h))))))))))))

  csi_edit-Keeps : SequenceFits s → columns ≤ 2 ^ 30 → Keeps columns rows (csi_edit s t)
  unfolding csi_edit
  csi_edit-Keeps fits small =
      if_lem (Keeps columns rows) (s.final == b'J') _ _
        (draw-Keeps _ (λ q k.
          let erased = erase_in_display-Fits q (erase_mode_for (code_at s 0)) t.attributes k in
          if_lem Here (code_at s 0 == 3) _ _ (clear_scrollback-Fits _ erased) erased))
        (if_lem (Keeps columns rows) (s.final == b'K') _ _
          (draw-Keeps _ (λ q k. erase_in_line-Fits q (erase_mode_for (code_at s 0)) t.attributes k))
          (if_lem (Keeps columns rows) (s.final == b'L') _ _
            (draw-Keeps _ (λ q k. insert_lines-Fits t.attributes q (count_of s) k))
            (if_lem (Keeps columns rows) (s.final == b'M') _ _
              (draw-Keeps _ (λ q k. delete_lines-Fits t.attributes q (count_of s) k))
              (if_lem (Keeps columns rows) (s.final == b'P') _ _
                (draw-Keeps _ (λ q k. delete_characters-Fits q (count_of s) t.attributes k))
                (if_lem (Keeps columns rows) (s.final == b'X') _ _
                  (draw-Keeps _ (λ q k.
                    erase_characters-Fits q (count_of s) t.attributes k
                      (omega (arith, count-le s fits, k.0.column_lt, k.1, small))))
                  csi_control-Keeps)))))

  -- A control sequence keeps a valid terminal of at most 2 ^ 30 columns valid, with any parameters
  -- that the parser can send.
  pub csi_dispatch-IsValid :
      SequenceFits s → columns ≤ 2 ^ 30 → IsValid columns rows (csi_dispatch s t).0
  unfolding csi_dispatch
  csi_dispatch-IsValid fits small =
      let count = count_of s in
      if_lem (Keeps columns rows) (s.final == b'@') _ _
        (draw-Keeps _ (λ q k. insert_characters-Fits q count t.attributes k))
        (if_lem (Keeps columns rows) (s.final == b'A') _ _
          (draw-Keeps _ (λ q k. move_cursor_relative-Fits q (neg count) (pos 0) k))
          (if_lem (Keeps columns rows) (s.final == b'B' || s.final == b'e') _ _
            (draw-Keeps _ (λ q k. move_cursor_relative-Fits q count (pos 0) k))
            (if_lem (Keeps columns rows) (s.final == b'C' || s.final == b'a') _ _
              (draw-Keeps _ (λ q k. move_cursor_relative-Fits q (pos 0) count k))
              (if_lem (Keeps columns rows) (s.final == b'D') _ _
                (draw-Keeps _ (λ q k. move_cursor_relative-Fits q (pos 0) (neg count) k))
                (if_lem (Keeps columns rows) (s.final == b'E') _ _
                  (draw-Keeps _
                    (λ q k. carriage_return-Fits _ (set_row-Fits q (pos q.cursor.row +ℤ count) k)))
                  (if_lem (Keeps columns rows) (s.final == b'F') _ _
                    (draw-Keeps _ (λ q k.
                      carriage_return-Fits _ (set_row-Fits q (pos q.cursor.row +ℤ neg count) k)))
                    (if_lem (Keeps columns rows) (s.final == b'G' || s.final == b'`') _ _
                      (draw-Keeps _ (λ q k. set_column-Fits q (pred_ℤ count) k))
                      (if_lem (Keeps columns rows) (s.final == b'd') _ _
                        (draw-Keeps _ (λ q k. set_row-Fits q (pred_ℤ count) k))
                        (if_lem (Keeps columns rows) (s.final == b'H' || s.final == b'f') _ _
                          (draw-Keeps _ (λ q k.
                            move_cursor-Fits q
                              (if t.modes.origin_mode
                                then pred_ℤ count +ℤ pos q.scroll_top
                                else pred_ℤ count)
                              (pred_ℤ (positive_parameter s 1 (pos 1))) k))
                          (if_lem (Keeps columns rows) (s.final == b'I') _ _
                            (draw-Keeps _
                              (λ q k. iterate_inv Here (pos_part count) next_tab q next_tab-Fits k))
                            (if_lem (Keeps columns rows) (s.final == b'Z') _ _
                              (draw-Keeps _ (λ q k.
                                iterate_inv Here (pos_part count) previous_tab q previous_tab-Fits
                                  k))
                              (csi_edit-Keeps fits small))))))))))))
