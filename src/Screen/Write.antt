-- ===== src/Screen/Write.antt =====
-- `Screen::writeCharacter` of src/terminal/Screen.cpp. `none` is a read or a write of a cell outside
-- the line, which the source makes with no check: undefined behaviour. A width of 0 or less counts
-- as 1, so a width is a number here.
use ar_term.Prelude.{
  ℕ, ◌+◌, ◌-◌, Bool, true, false, ◌&&◌, Option, none, some, ltb, leb, ◌==◌, if◌then◌else◌, length,
  get_elem?, set,
}
use ar_term.Cell.{Attributes, Cell}
use ar_term.Cell.Flag.{flag_or, has_flag, wide_lead, wide_trail}
use ar_term.Screen.{Line, Screen, blank_cell, touch, cursor_line, put_cursor_line, set_line_wrapped}
use ar_term.Screen.Scroll.{iterate, index}
use ar_term.Screen.Edit.{insert_blank}

-- `target[column] = cell`
unfoldable pub write_cell : Line → ℕ → Cell → Option Line
write_cell l column cell = if ltb column (length l) then some (set l column cell) else none

-- `lead = blankCell(lead.attributes)`, at a column.
unfoldable pub blank_at : ℕ → Line → Option Line
unfolding write_cell
blank_at column l = elim (get_elem? l column) [
  | none ↦ none
  | some cell ↦ write_cell l column (blank_cell cell.attributes)
]

-- The lambda `blankPartner`.
unfoldable pub blank_partner : ℕ → ℕ → Line → Option Line
unfolding blank_at
blank_partner columns column l = if leb columns column then some l else elim (get_elem? l column) [
  | none ↦ none
  | some cell ↦
      if has_flag cell.attributes.flags wide_trail && ltb 0 column
      then blank_at (column - 1) l
      else if has_flag cell.attributes.flags wide_lead && ltb (column + 1) columns
      then blank_at (column + 1) l
      else some l
]

abbrev pub with_flag : Attributes → Bool → Attributes
with_flag a lead = record a { flags = flag_or a.flags (if lead then wide_lead else wide_trail) }

-- The glyph, and the placeholder behind a double-width one.
unfoldable pub put_glyph : ℕ → ℕ → ℕ → Attributes → Line → Option Line
unfolding write_cell
put_glyph column code_point width attributes l =
    if width == 2
    then (elim (write_cell l column
        (record { character = code_point; attributes = with_flag attributes true })) [
          | none ↦ none
          | some led ↦
              write_cell led (column + 1)
                (record { character = 0; attributes = with_flag attributes false })
        ])
    else write_cell l column (record { character = code_point; attributes = attributes })

-- The line as it is prepared for the glyph.
unfoldable pub prepare : ℕ → ℕ → ℕ → Attributes → Bool → Line → Option Line
prepare columns column width attributes insert_mode l =
    let shifted =
      if insert_mode then iterate width (insert_blank column (blank_cell attributes)) l else l in
    elim (blank_partner columns column shifted) [
      | none ↦ none
      | some first ↦ if width == 2 then blank_partner columns (column + 1) first else some first
    ]

unfoldable pub advance_column : ℕ → Screen → Screen
advance_column width s =
    if leb s.columns (s.cursor.column + width)
    then record s { cursor = record s.cursor { column = s.columns - 1; pending_wrap = true } }
    else record s {
      cursor = record s.cursor { column = s.cursor.column + width; pending_wrap = false };
    }

-- From `Line &target = line(m_cursor.row)` to the end.
unfoldable pub place : Screen → ℕ → ℕ → Attributes → Bool → Option Screen
place s code_point width attributes insert_mode =
    elim (prepare s.columns s.cursor.column width attributes insert_mode (cursor_line s)) [
      | none ↦ none
      | some target ↦ elim (put_glyph s.cursor.column code_point width attributes target) [
        | none ↦ none
        | some l ↦ some (touch (advance_column width (put_cursor_line s l)))
      ]
    ]

-- `setLineWrapped(m_cursor.row, true); m_cursor.column = 0; index(attributes);`
unfoldable pub wrap : Screen → Attributes → Screen
wrap s attributes =
    let marked = set_line_wrapped s s.cursor.row true in
    index (record marked { cursor = record marked.cursor { column = 0 } }) attributes

unfoldable pub wrap_pending : Screen → Attributes → Bool → Screen
wrap_pending s attributes auto_wrap =
    if s.cursor.pending_wrap && auto_wrap
    then (let w = wrap s attributes in
        record w { cursor = record w.cursor { pending_wrap = false } })
    else s

-- The rest of the function, with the pending wrap done.
unfoldable pub write_glyph : Screen → ℕ → ℕ → Attributes → Bool → Bool → Option Screen
write_glyph s code_point width attributes insert_mode auto_wrap =
    if width == 2 && s.cursor.column == s.columns - 1
    then (if auto_wrap
        then place (wrap s attributes) code_point width attributes insert_mode
        else some s)
    else place s code_point width attributes insert_mode

unfoldable pub write_character : Screen → ℕ → ℕ → Attributes → Bool → Bool → Option Screen
write_character s code_point width attributes insert_mode auto_wrap =
    let w = if width == 0 then 1 else width in
    write_glyph (wrap_pending s attributes auto_wrap) code_point w attributes insert_mode auto_wrap
