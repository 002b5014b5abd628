-- ===== src/Tests/Emulator.antt =====
-- The theorems on src/terminal/Terminal.cpp at concrete sequences and on a small terminal.
use ar_term.Prelude.{ℕ, ◌<◌, ◌≡◌, refl, true, false, arith, List, [], ◌∷◌, map, replicate, min}
use ar_term.Prelude.Int.{pos}
use ar_term.Cell.{default_attributes, rgb}
use ar_term.Screen.{new, reset_tab_stops}
use ar_term.VtParser.{CsiSequence}
use ar_term.VtParser.Csi.{sequence_of}
use ar_term.Terminal.Sgr.{apply_sgr}
use ar_term.Terminal.Rendition.{
  render_all, apply_sgr-render_all, apply_sgr-rgb, apply_sgr-ignores_colons,
}
use ar_term.Terminal.Modes.{
  Terminal, active, revision, start, save_cursor, use_alternate_screen, reset,
}
use ar_term.Terminal.SetMode.{switch_and_clear}
use ar_term.Terminal.Valid.{start-IsValid}
use ar_term.Terminal.Buffers.{switch_and_clear-switch_and_clear, revision-reset}

-- Bold, underlined, red on green.
abbrev codes : List ℕ
codes = 1 ∷ 4 ∷ 31 ∷ 42 ∷ []

apply_sgr-render_all_example :
    apply_sgr (sequence_of b'>' (map (λ (n : ℕ). pos n) codes)) default_attributes
    ≡ render_all codes default_attributes
apply_sgr-render_all_example =
    apply_sgr-render_all b'>' codes default_attributes (omega arith) (ground arith)

apply_sgr-rgb_example :
    let color = rgb (min 10 255) (min 300 255) (min 0 255) in
    let sent : ℕ → CsiSequence =
      λ code. sequence_of 0 (pos code ∷ pos 2 ∷ pos 10 ∷ pos 300 ∷ pos 0 ∷ []) in
    (apply_sgr (sent 38) default_attributes ≡ record default_attributes { foreground = color })
    × (apply_sgr (sent 48) default_attributes ≡ record default_attributes { background = color })
    × (apply_sgr (sent 58) default_attributes
        ≡ record default_attributes { underline_color = color })
apply_sgr-rgb_example = apply_sgr-rgb 0 10 300 0 default_attributes

-- A curly underline.
abbrev curly : CsiSequence
curly = sequence_of 0 (pos 4 ∷ pos 3 ∷ [])

apply_sgr-ignores_colons_example :
    apply_sgr (record curly { sub_parameter_count = 1 ∷ replicate 31 0 }) default_attributes
    ≡ apply_sgr curly default_attributes
apply_sgr-ignores_colons_example =
    apply_sgr-ignores_colons curly (1 ∷ replicate 31 0) default_attributes

abbrev small : Terminal
small = start (pos 4) (pos 3)

abbrev inside : Terminal
inside = (switch_and_clear true small).0

switch_and_clear-switch_and_clear_example :
    let r = (switch_and_clear false inside).0 in
    ((active r).lines ≡ small.normal.lines)
    × ((active r).scrollback ≡ small.normal.scrollback)
    × ((active r).cursor.row ≡ small.normal.cursor.row)
    × ((active r).cursor.column ≡ small.normal.cursor.column)
    × (r.attributes ≡ small.attributes)
    × (r.modes.origin_mode ≡ small.modes.origin_mode)
    × (r.active_charset ≡ small.active_charset)
unfolding start switch_and_clear use_alternate_screen save_cursor
switch_and_clear-switch_and_clear_example =
    switch_and_clear-switch_and_clear small inside (start-IsValid (pos 4) (pos 3)) refl
      (record { normal_same = refl; saved_same = refl; still_alternate = refl })

-- A program has drawn ten times on the alternate screen.
abbrev busy : Terminal
busy = record small {
  is_alternate_active = true;
  alternate = record (new (pos 4) (pos 3) (pos 0)) { revision = 10 };
}

revision-reset_example : revision (reset busy).0 < revision busy
unfolding start new reset_tab_stops
revision-reset_example = revision-reset busy refl (omega arith) (omega arith)
