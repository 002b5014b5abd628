-- ===== src/Terminal/SetMode.antt =====
-- `setMode` and `setPrivateMode` of src/terminal/Terminal.cpp.
use ar_term.Prelude.{
  ℕ, zero, suc, ◌+◌, Bool, true, false, ◌||◌, ltb, ◌==◌, if◌then◌else◌, [], ◌∷◌, ◌++◌,
}
use ar_term.Prelude.Int.{pos}
use ar_term.Screen.{move_cursor}
use ar_term.Screen.Edit.{all, erase_in_display}
use ar_term.VtParser.{CsiSequence}
use ar_term.Terminal.Sgr.{code_at}
use ar_term.Terminal.Modes.{
  Terminal, TerminalModes, Outcome, mouse_tracking_changed, bracketed_paste_changed, MouseTracking,
  tracking_off, x10, normal_tracking, button_event, any_event, MouseEncoding, default_encoding,
  utf8, sgr, urxvt, on_active, save_cursor, restore_cursor, use_alternate_screen,
}

abbrev set_flags : (TerminalModes → TerminalModes) → Terminal → Outcome
set_flags change t = (record t { modes = change t.modes }, [])

-- The cases 9, 1000, 1002 and 1003.
unfoldable pub track_mouse : MouseTracking → Bool → Terminal → Outcome
track_mouse tracking enabled t =
    let chosen = if enabled then tracking else tracking_off in
    (
      record t { modes = record t.modes { mouse_tracking = chosen } },
      mouse_tracking_changed chosen ∷ [],
    )

-- The cases 1005, 1006 and 1015.
unfoldable pub encode_mouse : MouseEncoding → Bool → Terminal → Outcome
encode_mouse encoding enabled t =
    set_flags (λ m. record m { mouse_encoding = if enabled then encoding else default_encoding }) t

-- The case 1049.
unfoldable pub switch_and_clear : Bool → Terminal → Outcome
unfolding save_cursor restore_cursor use_alternate_screen
switch_and_clear true t = use_alternate_screen true true (save_cursor t)
switch_and_clear false t =
    let (q, signals) = use_alternate_screen false true t in (restore_cursor q, signals)

-- The cases up to 25.
unfoldable pub set_dec_mode : ℕ → Bool → Terminal → Outcome
unfolding erase_in_display move_cursor
set_dec_mode mode enabled t =
    if mode == 1
    then set_flags (λ m. record m { application_cursor_keys = enabled }) t
    else if mode == 3
    then (on_active (λ s. move_cursor (erase_in_display s all t.attributes) (pos 0) (pos 0)) t, [])
    else if mode == 5
    then set_flags (λ m. record m { reverse_video = enabled }) t
    else if mode == 6
    then (
      on_active (λ s. move_cursor s (pos (if enabled then s.scroll_top else 0)) (pos 0))
          (record t { modes = record t.modes { origin_mode = enabled } }),
      [],
    )
    else if mode == 7
    then set_flags (λ m. record m { auto_wrap = enabled }) t
    else if mode == 9
    then track_mouse x10 enabled t
    else if mode == 25
    then set_flags (λ m. record m { cursor_visible = enabled }) t
    else (t, [])

-- The cases from 47 on.
unfoldable pub set_xterm_mode : ℕ → Bool → Terminal → Outcome
unfolding track_mouse encode_mouse use_alternate_screen save_cursor restore_cursor switch_and_clear
set_xterm_mode mode enabled t =
    if mode == 1000
    then track_mouse normal_tracking enabled t
    else if mode == 1002
    then track_mouse button_event enabled t
    else if mode == 1003
    then track_mouse any_event enabled t
    else if mode == 1004
    then set_flags (λ m. record m { focus_reporting = enabled }) t
    else if mode == 1005
    then encode_mouse utf8 enabled t
    else if mode == 1006
    then encode_mouse sgr enabled t
    else if mode == 1015
    then encode_mouse urxvt enabled t
    else if mode == 47 || mode == 1047
    then use_alternate_screen enabled false t
    else if mode == 1048
    then ((if enabled then save_cursor t else restore_cursor t), [])
    else if mode == 1049
    then switch_and_clear enabled t
    else if mode == 2004
    then (
      record t { modes = record t.modes { bracketed_paste = enabled } },
      bracketed_paste_changed enabled ∷ [],
    )
    else (t, [])

unfoldable pub set_private_mode : ℕ → Bool → Terminal → Outcome
unfolding set_dec_mode set_xterm_mode
set_private_mode mode enabled t =
    if ltb mode 47 then set_dec_mode mode enabled t else set_xterm_mode mode enabled t

unfoldable pub set_ansi_mode : ℕ → Bool → Terminal → Outcome
set_ansi_mode mode enabled t =
    if mode == 4
    then set_flags (λ m. record m { insert_mode = enabled }) t
    else if mode == 20
    then set_flags (λ m. record m { new_line_mode = enabled }) t
    else (t, [])

-- The loops of `setMode` over the `left` parameters from `i` on.
unfoldable pub set_each :
    (ℕ → Bool → Terminal → Outcome) → CsiSequence → Bool → ℕ → ℕ → Terminal → Outcome
set_each set s enabled i zero t = (t, [])
set_each set s enabled i (suc left) t =
    let (q, signals) = set (code_at s i) enabled t in
    let (r, later) = set_each set s enabled (i + 1) left q in (r, signals ++ later)

unfoldable pub set_mode : CsiSequence → Bool → Terminal → Outcome
unfolding set_each set_private_mode set_ansi_mode
set_mode s enabled t =
    if s.private_marker == b'?'
    then set_each set_private_mode s enabled 0 s.parameter_count t
    else set_each set_ansi_mode s enabled 0 s.parameter_count t
