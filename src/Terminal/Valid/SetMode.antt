-- ===== src/Terminal/Valid/SetMode.antt =====
-- What setting and resetting the modes of src/terminal/Terminal.cpp keeps.
use ar_term.Prelude.{ℕ, zero, suc, ◌+◌, Bool, true, false, arith, ltb, ◌||◌, ◌==◌, if◌then◌else◌}
use ar_term.Prelude.Int.{pos}
use ar_term.Screen.Fits.{move_cursor-Fits, erase_in_display-Fits}
use ar_term.Prelude.{if_lem}
use ar_term.Screen.Edit.{all}
use ar_term.VtParser.{CsiSequence}
use ar_term.Terminal.Sgr.{code_at}
use ar_term.Terminal.Modes.{Terminal, Outcome, save_cursor, restore_cursor}
use ar_term.Terminal.SetMode.{
  track_mouse, encode_mouse, set_dec_mode, set_xterm_mode, set_private_mode, set_ansi_mode,
  set_each, set_mode,
}
use ar_term.Terminal.Valid.{
  IsValid, Keeps, on_active-IsValid, save_cursor-IsValid, restore_cursor-IsValid,
  use_alternate_screen-IsValid, switch_and_clear-IsValid,
}

module _ {columns rows : ℕ} where
  set_dec_mode-IsValid :
      (mode : ℕ) (enabled : Bool) (t : Terminal)
      → IsValid columns rows t
      → IsValid columns rows (set_dec_mode mode enabled t).0
  unfolding set_dec_mode track_mouse
  set_dec_mode-IsValid mode enabled t h =
      let cleared =
        on_active-IsValid _ t
          (λ s k. move_cursor-Fits _ (pos 0) (pos 0) (erase_in_display-Fits s all t.attributes k))
          h in
      let flagged : (b : Bool)
          → IsValid columns rows (record t { modes = record t.modes { origin_mode = b } }) =
        λ b. ground (arith, h) in
      let homed =
        on_active-IsValid _ _
          (λ s k. move_cursor-Fits s (pos (if enabled then s.scroll_top else 0)) (pos 0) k)
          (flagged enabled) in
      if_lem (Keeps columns rows) (mode == 1) _ _ (ground (arith, h)) (
        if_lem (Keeps columns rows) (mode == 3) _ _ cleared (
          if_lem (Keeps columns rows) (mode == 5) _ _ (ground (arith, h)) (
            if_lem (Keeps columns rows) (mode == 6) _ _ homed (
              if_lem (Keeps columns rows) (mode == 7) _ _ (ground (arith, h)) (
                if_lem (Keeps columns rows) (mode == 9) _ _ (ground (arith, h))
                  (if_lem (Keeps columns rows) (mode == 25) _ _ (ground (arith, h)) h))))))

  set_xterm_mode-IsValid :
      (mode : ℕ) (enabled : Bool) (t : Terminal)
      → IsValid columns rows t
      → IsValid columns rows (set_xterm_mode mode enabled t).0
  unfolding set_xterm_mode track_mouse encode_mouse
  set_xterm_mode-IsValid mode enabled t h =
      let moved : (b : Bool)
          → IsValid columns rows (if b then save_cursor t else restore_cursor t) =
        λ b. elim b as (λ k. IsValid columns rows (if k then save_cursor t else restore_cursor t)) [
          | true ↦ save_cursor-IsValid t h
          | false ↦ restore_cursor-IsValid t h
        ] in
      if_lem (Keeps columns rows) (mode == 1000) _ _ (ground (arith, h)) (
        if_lem (Keeps columns rows) (mode == 1002) _ _ (ground (arith, h)) (
          if_lem (Keeps columns rows) (mode == 1003) _ _ (ground (arith, h)) (
            if_lem (Keeps columns rows) (mode == 1004) _ _ (ground (arith, h)) (
              if_lem (Keeps columns rows) (mode == 1005) _ _ (ground (arith, h)) (
                if_lem (Keeps columns rows) (mode == 1006) _ _ (ground (arith, h)) (
                  if_lem (Keeps columns rows) (mode == 1015) _ _ (ground (arith, h)) (
                    if_lem (Keeps columns rows) (mode == 47 || mode == 1047) _ _
                      (use_alternate_screen-IsValid enabled false t h)
                      (if_lem (Keeps columns rows) (mode == 1048) _ _ (moved enabled) (
                        if_lem (Keeps columns rows) (mode == 1049) _ _
                          (switch_and_clear-IsValid enabled t h)
                          (if_lem (Keeps columns rows) (mode == 2004) _ _ (ground (arith, h))
                            h))))))))))

  set_private_mode-IsValid :
      (mode : ℕ) (enabled : Bool) (t : Terminal)
      → IsValid columns rows t
      → IsValid columns rows (set_private_mode mode enabled t).0
  unfolding set_private_mode
  set_private_mode-IsValid mode enabled t h =
      if_lem (Keeps columns rows) (ltb mode 47) _ _ (set_dec_mode-IsValid mode enabled t h)
        (set_xterm_mode-IsValid mode enabled t h)

  set_ansi_mode-IsValid :
      (mode : ℕ) (enabled : Bool) (t : Terminal)
      → IsValid columns rows t
      → IsValid columns rows (set_ansi_mode mode enabled t).0
  unfolding set_ansi_mode
  set_ansi_mode-IsValid mode enabled t h =
      if_lem (Keeps columns rows) (mode == 4) _ _ (ground (arith, h))
        (if_lem (Keeps columns rows) (mode == 20) _ _ (ground (arith, h)) h)

  set_each-IsValid :
      (set : ℕ → Bool → Terminal → Outcome) (s : CsiSequence) (enabled : Bool) (i left : ℕ)
      (t : Terminal)
      → ((mode : ℕ) (u : Terminal)
          → IsValid columns rows u
          → IsValid columns rows (set mode enabled u).0)
      → IsValid columns rows t
      → IsValid columns rows (set_each set s enabled i left t).0
  unfolding set_each
  set_each-IsValid set s enabled i zero t keep h = h
  set_each-IsValid set s enabled i (suc left) t keep h =
      set_each-IsValid set s enabled (i + 1) left _ keep (keep (code_at s i) t h)

  -- SM, RM, DECSET and DECRST with any modes keep a valid terminal valid: both buffers, the
  -- agreement of the active buffer with the mode, and the bounds of the charset index.
  pub set_mode-IsValid :
      (s : CsiSequence) (enabled : Bool) (t : Terminal)
      → IsValid columns rows t
      → IsValid columns rows (set_mode s enabled t).0
  unfolding set_mode
  set_mode-IsValid s enabled t h =
      if_lem (Keeps columns rows) (s.private_marker == b'?') _ _
        (set_each-IsValid set_private_mode s enabled 0 s.parameter_count t
          (λ mode u k. set_private_mode-IsValid mode enabled u k) h)
        (set_each-IsValid set_ansi_mode s enabled 0 s.parameter_count t
          (λ mode u k. set_ansi_mode-IsValid mode enabled u k) h)
