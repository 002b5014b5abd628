-- ===== src/Terminal/Sgr.antt =====
-- `Terminal::applySgr` of src/terminal/Terminal.cpp: the attributes as SGR changes them.
use ar_term.Prelude.{
  ℕ, zero, suc, ◌+◌, ◌-◌, Bool, true, false, ◌&&◌, ◌||◌, ltb, leb, ◌==◌, if◌then◌else◌,
}
use ar_term.Prelude.Int.{ℤ, pos, negsuc, pos_part, clamp}
use ar_term.Cell.{Color, default_color, indexed, rgb, Attributes, default_attributes}
use ar_term.Cell.Flag.{
  CellFlag, flag_or, flag_and, flag_not, bold, faint, italic, underline, blink, inverse, hidden,
  strikeout, double_underline,
}
use ar_term.VtParser.{CsiSequence, parameter}

-- `m_attributes.flags |= flag`
abbrev switch_on : CellFlag → Attributes → Attributes
switch_on flag a = record a { flags = flag_or a.flags flag }

-- `m_attributes.flags &= ~flag`
abbrev switch_off : CellFlag → Attributes → Attributes
switch_off flag a = record a { flags = flag_and a.flags (flag_not flag) }

-- `sequence.parameter(i, 0)`, which is not negative.
abbrev pub code_at : CsiSequence → ℕ → ℕ
code_at s i = pos_part (parameter s i (pos 0))

-- The cases 0 to 29.
unfoldable pub rendition : ℕ → Attributes → Attributes
rendition code a =
    if code == 0
    then default_attributes
    else if code == 1
    then switch_on bold a
    else if code == 2
    then switch_on faint a
    else if code == 3
    then switch_on italic a
    else if code == 4
    then switch_on underline a
    else if code == 5 || code == 6
    then switch_on blink a
    else if code == 7
    then switch_on inverse a
    else if code == 8
    then switch_on hidden a
    else if code == 9
    then switch_on strikeout a
    else if code == 21
    then switch_on double_underline a
    else if code == 22
    then switch_off (flag_or bold faint) a
    else if code == 23
    then switch_off italic a
    else if code == 24
    then switch_off (flag_or underline double_underline) a
    else if code == 25
    then switch_off blink a
    else if code == 27
    then switch_off inverse a
    else if code == 28
    then switch_off hidden a
    else if code == 29
    then switch_off strikeout a
    else a

-- The cases 39, 49 and 59, and `default`.
unfoldable pub palette : ℕ → Attributes → Attributes
palette code a =
    if code == 39
    then record a { foreground = default_color }
    else if code == 49
    then record a { background = default_color }
    else if code == 59
    then record a { underline_color = default_color }
    else if leb 30 code && leb code 37
    then record a { foreground = indexed (code - 30) }
    else if leb 40 code && leb code 47
    then record a { background = indexed (code - 40) }
    else if leb 90 code && leb code 97
    then record a { foreground = indexed (code - 90 + 8) }
    else if leb 100 code && leb code 107
    then record a { background = indexed (code - 100 + 8) }
    else a

-- `std::clamp(sequence.parameter(i, 0), 0, 255)`
unfoldable pub channel : CsiSequence → ℕ → ℕ
channel s i = clamp (parameter s i (pos 0)) 0 255

-- The last lines of the case 38, 48 and 58.
unfoldable pub put_color : ℕ → Color → Attributes → Attributes
put_color code parsed a =
    if code == 38
    then record a { foreground = parsed }
    else if code == 48
    then record a { background = parsed }
    else record a { underline_color = parsed }

abbrev is_value : ℤ → ℕ → Bool
is_value (pos n) m = n == m
is_value (negsuc n) m = false

-- The case 38, 48 and 58: the attributes, and what is added to `i`.
unfoldable pub extended : CsiSequence → ℕ → ℕ → Attributes → Attributes × ℕ
extended s i code a =
    let selector = parameter s (i + 1) (negsuc 0) in
    if is_value selector 5 && ltb (i + 2) s.parameter_count
    then (put_color code (indexed (channel s (i + 2))) a, 2)
    else if is_value selector 2 && ltb (i + 4) s.parameter_count
    then (put_color code (rgb (channel s (i + 2)) (channel s (i + 3)) (channel s (i + 4))) a, 4)
    else (a, 1)

-- One round of the loop.
unfoldable pub sgr_step : CsiSequence → ℕ → Attributes → Attributes × ℕ
sgr_step s i a =
    let code = code_at s i in
    if code == 38 || code == 48 || code == 58
    then extended s i code a
    else if leb 30 code
    then (palette code a, 0)
    else (rendition code a, 0)

-- The loop from `i` on, on fuel.
unfoldable pub sgr_loop : ℕ → CsiSequence → ℕ → Attributes → Attributes
sgr_loop zero s i a = a
sgr_loop (suc fuel) s i a = elim (ltb i s.parameter_count) [
  | true ↦ sgr_loop fuel s (i + (sgr_step s i a).1 + 1) (sgr_step s i a).0
  | false ↦ a
]

unfoldable pub apply_sgr : CsiSequence → Attributes → Attributes
apply_sgr s a =
    if s.parameter_count == 0 then default_attributes else sgr_loop s.parameter_count s 0 a
