-- ===== src/Terminal/Reports.antt =====
-- The replies of src/terminal/Terminal.cpp, read as the control sequences that they are.
use ar_term.Prelude.{
  ℕ, ◌+◌, ◌-◌, ◌≤◌, ◌<◌, ◌≡◌, refl, ap, ◌∙◌, Bool, true, false, inl, inr, Bool-cases, arith,
  if◌then◌else◌, [], ◌∷◌, ◌++◌, none, some,
}
use ar_term.Prelude.Int.{ℤ, pos, sub_ℕ, clamp, pred_ℤ, ◌+ℤ◌}
use ar_term.Screen.{Screen, move_cursor}
use ar_term.VtParser.{
  CsiSequence, VtParser, csi_dispatch, ground as ground_state, is_final, parameter,
  positive_parameter,
}
use ar_term.VtParser.Machine.{parse, unhook}
use ar_term.VtParser.Numbers.{decimal}
use ar_term.VtParser.Csi.{sequence_of, render, field, flatten, parse-csi}
use ar_term.Terminal.Modes.{Terminal, reply, active, on_active}
use ar_term.Terminal.Sgr.{code_at}
use ar_term.Terminal.Csi.{count_of, number, report, report_device_status, draw}
use ar_term.Terminal.Csi as Csi
use ar_term.Terminal.Valid.{IsValid}
use ar_term.Terminal.Handlers.{active-Fits}

report-render :
    (a b final : ℕ)
    → report (pos a) (pos b) final ≡ (0x1B ∷ b'[' ∷ []) ++ (render (some a ∷ []) b ++ final ∷ [])
unfolding report render field number
report-render a b final = ap (λ xs. 0x1B ∷ b'[' ∷ xs) (flatten (decimal a) (decimal b) b';' final)

abbrev two_parameters : ℕ → ℕ → ℕ → CsiSequence
two_parameters a b final = record (sequence_of 0 (pos a ∷ pos b ∷ [])) { final = final }

-- A report is one control sequence of two parameters, read from any state of a parser.
parse-report :
    (p : VtParser) (a b final : ℕ)
    → a ≤ 999999
    → b ≤ 999999
    → is_final final ≡ true
    → let o = parse p (report (pos a) (pos b) final) in
      (o.1 ≡ unhook p.state ++ csi_dispatch (two_parameters a b final) ∷ [])
      × (o.0.state ≡ ground_state)
parse-report p a b final a_le b_le h =
    rw (report-render a b final)
      (parse-csi p none (some a ∷ []) b final tt (omega arith) (a_le, tt) b_le h)

-- The sequence that moves the cursor.
first_of : (a b final : ℕ) → 0 < a → count_of (two_parameters a b final) ≡ pos a
unfolding positive_parameter parameter
first_of a b final lt = ground arith

second_of :
    (a b final : ℕ) → 0 < b → positive_parameter (two_parameters a b final) 1 (pos 1) ≡ pos b
unfolding positive_parameter parameter
second_of a b final lt = ground arith

abbrev top_of : Terminal → ℕ
top_of t = if t.modes.origin_mode then (active t).scroll_top else 0

active-on_active :
    (change : Screen → Screen) (t : Terminal) → active (on_active change t) ≡ change (active t)
active-on_active change t = elim (Bool-cases t.is_alternate_active) [
  | inl second ↦ rw second refl
  | inr first ↦ rw first refl
]

-- What CUP with these parameters does to the active buffer.
abbrev homed : ℕ → ℕ → Terminal → Screen → Screen
homed a b t screen =
    let q = two_parameters a b b'H' in
    let row = pred_ℤ (count_of q) in
    move_cursor screen (if t.modes.origin_mode then row +ℤ pos screen.scroll_top else row)
      (pred_ℤ (positive_parameter q 1 (pos 1)))

-- CUP with two positive numbers.
csi_dispatch-home :
    (t : Terminal) (a b : ℕ)
    → 0 < a
    → 0 < b
    → active (Csi.csi_dispatch (two_parameters a b b'H') t).0
      ≡ move_cursor
          (active t)
          (if t.modes.origin_mode
            then pred_ℤ (pos a) +ℤ pos (active t).scroll_top
            else pred_ℤ (pos a))
          (pred_ℤ (pos b))
unfolding Csi.csi_dispatch
csi_dispatch-home t a b a_pos b_pos =
    active-on_active (homed a b t) t
    ∙ ap
        (λ z.
          move_cursor (active t)
            (if t.modes.origin_mode then pred_ℤ z +ℤ pos (active t).scroll_top else pred_ℤ z)
            (pred_ℤ (positive_parameter (two_parameters a b b'H') 1 (pos 1))))
        (first_of a b b'H' a_pos)
    ∙ ap
        (λ z.
          move_cursor (active t)
            (if t.modes.origin_mode
              then pred_ℤ (pos a) +ℤ pos (active t).scroll_top
              else pred_ℤ (pos a))
            (pred_ℤ z))
        (second_of a b b'H' b_pos)

home_row :
    (n rows top : ℕ) (origin : Bool)
    → (origin ≡ true → top ≤ n)
    → n < rows
    → let a = n + 1 - (if origin then top else 0) in
      (0 < a)
      × (clamp (if origin then pred_ℤ (pos a) +ℤ pos top else pred_ℤ (pos a)) 0 (rows - 1) ≡ n)
unfolding clamp ◌+ℤ◌
home_row n rows top true inside lt = let le = inside refl in (omega arith, ground (arith, le))
home_row n rows top false inside lt = (omega arith, ground arith)

home_column : (n columns : ℕ) → n < columns → clamp (pred_ℤ (pos (n + 1))) 0 (columns - 1) ≡ n
unfolding clamp ◌+ℤ◌
home_column n columns lt = ground arith

moved_row :
    (s : Screen) (row column : ℤ) (n : ℕ)
    → clamp row 0 (s.rows - 1) ≡ n
    → (move_cursor s row column).cursor.row ≡ n
unfolding move_cursor
moved_row s row column n e = e

moved_column :
    (s : Screen) (row column : ℤ) (n : ℕ)
    → clamp column 0 (s.columns - 1) ≡ n
    → (move_cursor s row column).cursor.column ≡ n
unfolding move_cursor
moved_column s row column n e = e

status :
    (s : CsiSequence) (t : Terminal)
    → code_at s 0 ≡ 6
    → 0 < (active t).cursor.row + 1 - top_of t
    → report_device_status s t ≡ (
      t,
      reply (
            report
              (pos ((active t).cursor.row + 1 - top_of t))
              (pos ((active t).cursor.column + 1))
              b'R')
          ∷ [],
    )
unfolding report_device_status
status s t six lt =
    let e : sub_ℕ ((active t).cursor.row + 1) (top_of t)
        ≡ pos ((active t).cursor.row + 1 - top_of t) =
      ground arith in
    rw (six, e) refl

-- The reply to DSR 6 is one sequence of two numbers for a parser in that state, and CUP with these
-- numbers leaves the cursor of the active buffer where it is.
abbrev pub ReportsBack : VtParser → CsiSequence → Terminal → Type 0
ReportsBack p s t =
    (row : ℕ) × (column : ℕ) × (report_device_status s t
      ≡ (t, reply (report (pos row) (pos column) b'R') ∷ []))
    × ((parse p (report (pos row) (pos column) b'R')).1
        ≡ unhook p.state ++ csi_dispatch (two_parameters row column b'R') ∷ [])
    × ((active (Csi.csi_dispatch (two_parameters row column b'H') t).0).cursor.row
        ≡ (active t).cursor.row)
    × ((active (Csi.csi_dispatch (two_parameters row column b'H') t).0).cursor.column
        ≡ (active t).cursor.column)

-- The cursor position report, on a terminal of at most 999999 columns and rows whose cursor is not
-- above the scroll region while the origin mode is on. The reply to DSR 6 is read by a parser in any state
-- as one sequence of two parameters; and its numbers, sent back by the host with CUP, leave the
-- cursor where it is.
pub report_device_status-csi_dispatch :
    {columns rows : ℕ} (p : VtParser) (s : CsiSequence) (t : Terminal)
    → IsValid columns rows t
    → columns ≤ 999999
    → rows ≤ 999999
    → (t.modes.origin_mode ≡ true → (active t).scroll_top ≤ (active t).cursor.row)
    → code_at s 0 ≡ 6
    → ReportsBack p s t
unfolding is_final
report_device_status-csi_dispatch {columns} {rows} p s t h wide high inside six =
    let screen = active t in
    let fits = active-Fits t h in
    let row = screen.cursor.row + 1 - top_of t in
    let column = screen.cursor.column + 1 in
    let (row_pos, row_back) =
      home_row screen.cursor.row screen.rows screen.scroll_top t.modes.origin_mode inside
        fits.0.row_lt in
    let column_back = home_column screen.cursor.column screen.columns fits.0.column_lt in
    let back = csi_dispatch-home t row column row_pos (omega arith) in
    let (read, calm) =
      parse-report p row column b'R' (omega (arith, fits.0.row_lt, fits.1.1))
        (omega (arith, fits.0.column_lt, fits.1.0)) refl in
    (
      row,
      column,
      status s t six row_pos,
      read,
      ap (λ q. q.cursor.row) back ∙ moved_row screen _ _ _ row_back,
      ap (λ q. q.cursor.column) back ∙ moved_column screen _ _ _ column_back,
    )
