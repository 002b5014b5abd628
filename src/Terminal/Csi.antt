-- ===== src/Terminal/Csi.antt =====
-- `csiDispatch` and `reportDeviceStatus` of src/terminal/Terminal.cpp. The switch is cut in three:
-- each part hands over to the next by its last branch.
use ar_term.Prelude.{ℕ, ◌+◌, true, false, ◌||◌, ◌==◌, if◌then◌else◌, List, [], ◌∷◌, ◌++◌}
use ar_term.Prelude.Int.{ℤ, pos, negsuc, ◌+ℤ◌, pos_part, neg, pred_ℤ, sub_ℕ}
use ar_term.Screen.{
  Screen, move_cursor, move_cursor_relative, set_column, set_row, carriage_return,
  set_scroll_region, reset_scroll_region,
}
use ar_term.Screen.Scroll.{
  iterate, clear_scrollback, scroll_up, scroll_down, insert_lines, delete_lines,
}
use ar_term.Screen.Edit.{
  EraseMode, to_end, to_start, all, erase_in_line, erase_in_display, erase_characters,
  insert_characters, delete_characters,
}
use ar_term.Screen.Tabs.{next_tab_stop, previous_tab_stop, clear_tab_stop, clear_all_tab_stops}
use ar_term.VtParser.{CsiSequence, parameter, positive_parameter}
use ar_term.VtParser.Numbers.{decimal}
use ar_term.Terminal.Sgr.{code_at, apply_sgr}
use ar_term.Terminal.Modes.{
  Terminal, reply, Outcome, active, on_active, save_cursor, restore_cursor, soft_reset,
}
use ar_term.Terminal.SetMode.{set_mode}

unfoldable pub erase_mode_for : ℕ → EraseMode
erase_mode_for parameter =
    if parameter == 1 then to_start else if parameter == 2 || parameter == 3 then all else to_end

-- `sequence.positiveParameter(0)`
abbrev pub count_of : CsiSequence → ℤ
count_of s = positive_parameter s 0 (pos 1)

unfoldable pub next_tab : Screen → Screen
unfolding next_tab_stop set_column
next_tab s = set_column s (pos (next_tab_stop s s.cursor.column))

unfoldable pub previous_tab : Screen → Screen
unfolding previous_tab_stop set_column
previous_tab s = set_column s (pos (previous_tab_stop s s.cursor.column))

-- The change of the active buffer, without a signal.
abbrev pub draw : (Screen → Screen) → Terminal → Outcome
draw change t = (on_active change t, [])

-- `arg` of an `int`
unfoldable pub number : ℤ → List ℕ
unfolding decimal
number (pos n) = decimal n
number (negsuc n) = b'-' ∷ decimal (n + 1)

-- ESC [ number ; number and a final byte
unfoldable pub report : ℤ → ℤ → ℕ → List ℕ
unfolding number
report first second final =
    (0x1B ∷ b'[' ∷ []) ++ ((number first ++ b';' ∷ []) ++ (number second ++ final ∷ []))

unfoldable pub report_device_status : CsiSequence → Terminal → Outcome
unfolding report
report_device_status s t =
    let cursor = (active t).cursor in
    let top = if t.modes.origin_mode then (active t).scroll_top else 0 in
    if code_at s 0 == 5
    then (t, reply (0x1B ∷ b'[' ∷ b'0' ∷ b'n' ∷ []) ∷ [])
    else if code_at s 0 == 6
    then (t, reply (report (sub_ℕ (cursor.row + 1) top) (pos (cursor.column + 1)) b'R') ∷ [])
    else (t, [])

-- "\033[?62;1;6;9;15;22c"
abbrev device_attributes : List ℕ
device_attributes =
    0x1B ∷ b'[' ∷ b'?' ∷ b'6' ∷ b'2' ∷ b';' ∷ b'1' ∷ b';' ∷ b'6' ∷ b';' ∷ b'9' ∷ b';' ∷ b'1' ∷ b'5'
    ∷ b';' ∷ b'2' ∷ b'2' ∷ b'c' ∷ []

-- "\\033[8;%1;%2t"
unfoldable size_report : ℕ → ℕ → List ℕ
unfolding decimal
size_report rows columns =
    (0x1B ∷ b'[' ∷ b'8' ∷ b';' ∷ [])
    ++ ((decimal rows ++ b';' ∷ []) ++ (decimal columns ++ b't' ∷ []))

-- The case 'r' on the active buffer.
unfoldable pub limit_rows : CsiSequence → Terminal → Screen → Screen
unfolding positive_parameter reset_scroll_region set_scroll_region
limit_rows s t screen =
    if s.parameter_count == 0
    then reset_scroll_region screen
    else set_scroll_region screen (pred_ℤ (count_of s))
        (pred_ℤ (positive_parameter s 1 (pos t.rows)))

unfoldable pub set_region : CsiSequence → Terminal → Screen → Screen
unfolding limit_rows move_cursor
set_region s t screen =
    let limited = limit_rows s t screen in
    move_cursor limited (pos (if t.modes.origin_mode then limited.scroll_top else 0)) (pos 0)

-- From `case 'S'` on.
unfoldable pub csi_control : CsiSequence → Terminal → Outcome
unfolding positive_parameter scroll_up scroll_down clear_tab_stop clear_all_tab_stops set_mode
    apply_sgr report_device_status soft_reset set_region save_cursor restore_cursor size_report
csi_control s t =
    let f = s.final in
    if f == b'S'
    then draw (λ screen. scroll_up screen (count_of s) t.attributes) t
    else if f == b'T'
    then draw (λ screen. scroll_down screen (count_of s) t.attributes) t
    else if f == b'c'
    then (t, if s.private_marker == b'?' then [] else reply device_attributes ∷ [])
    else if f == b'g'
    then draw
        (λ screen.
          if code_at s 0 == 3
          then clear_all_tab_stops screen
          else clear_tab_stop screen (pos screen.cursor.column))
        t
    else if f == b'h'
    then set_mode s true t
    else if f == b'l'
    then set_mode s false t
    else if f == b'm'
    then (record t { attributes = apply_sgr s t.attributes }, [])
    else if f == b'n'
    then report_device_status s t
    else if f == b'p'
    then (if s.intermediate == b'!' then soft_reset t else t, [])
    else if f == b'r'
    then (if s.private_marker == b'?' then t else on_active (set_region s t) t, [])
    else if f == b's'
    then (save_cursor t, [])
    else if f == b'u'
    then (restore_cursor t, [])
    else if f == b't'
    then (t, if code_at s 0 == 18 then reply (size_report t.rows t.columns) ∷ [] else [])
    else (t, [])

-- From `case 'J'` on.
unfoldable pub csi_edit : CsiSequence → Terminal → Outcome
unfolding positive_parameter erase_mode_for erase_in_display clear_scrollback erase_in_line
    insert_lines delete_lines delete_characters erase_characters csi_control
csi_edit s t =
    let f = s.final in
    if f == b'J'
    then draw
        (λ screen.
          let erased = erase_in_display screen (erase_mode_for (code_at s 0)) t.attributes in
          if code_at s 0 == 3 then clear_scrollback erased else erased)
        t
    else if f == b'K'
    then draw (λ screen. erase_in_line screen (erase_mode_for (code_at s 0)) t.attributes) t
    else if f == b'L'
    then draw (λ screen. insert_lines screen (count_of s) t.attributes) t
    else if f == b'M'
    then draw (λ screen. delete_lines screen (count_of s) t.attributes) t
    else if f == b'P'
    then draw (λ screen. delete_characters screen (count_of s) t.attributes) t
    else if f == b'X'
    then draw (λ screen. erase_characters screen (count_of s) t.attributes) t
    else csi_control s t

unfoldable pub csi_dispatch : CsiSequence → Terminal → Outcome
unfolding positive_parameter insert_characters move_cursor_relative set_row set_column
    carriage_return move_cursor iterate next_tab previous_tab csi_edit
csi_dispatch s t =
    let f = s.final in
    let count = count_of s in
    if f == b'@'
    then draw (λ screen. insert_characters screen count t.attributes) t
    else if f == b'A'
    then draw (λ screen. move_cursor_relative screen (neg count) (pos 0)) t
    else if f == b'B' || f == b'e'
    then draw (λ screen. move_cursor_relative screen count (pos 0)) t
    else if f == b'C' || f == b'a'
    then draw (λ screen. move_cursor_relative screen (pos 0) count) t
    else if f == b'D'
    then draw (λ screen. move_cursor_relative screen (pos 0) (neg count)) t
    else if f == b'E'
    then draw (λ screen. carriage_return (set_row screen (pos screen.cursor.row +ℤ count))) t
    else if f == b'F'
    then draw (λ screen. carriage_return (set_row screen (pos screen.cursor.row +ℤ neg count))) t
    else if f == b'G' || f == b'`'
    then draw (λ screen. set_column screen (pred_ℤ count)) t
    else if f == b'd'
    then draw (λ screen. set_row screen (pred_ℤ count)) t
    else if f == b'H' || f == b'f'
    then draw
        (λ screen.
          let row =
            if t.modes.origin_mode then pred_ℤ count +ℤ pos screen.scroll_top else pred_ℤ count in
          move_cursor screen row (pred_ℤ (positive_parameter s 1 (pos 1))))
        t
    else if f == b'I'
    then draw (iterate (pos_part count) next_tab) t
    else if f == b'Z'
    then draw (iterate (pos_part count) previous_tab) t
    else csi_edit s t
