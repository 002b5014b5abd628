-- ===== src/Terminal/Stream.antt =====
-- Any bytes from the remote side, through the parser and the handlers of src/terminal/Terminal.cpp.
use ar_term.Prelude.{
  ℕ, ◌^◌, ◌≤◌, ◌<◌, ◌≡◌, refl, subst, ◌&&◌, ◌==◌, if◌then◌else◌, if_lem, inl, inr, Bool-cases,
  arith, Option, some, List, [], ◌∷◌, ◌++◌, All,
}
use ar_term.Prelude.Int.{ℤ, pos, max_ℤ}
use ar_term.VtParser.{
  VtParser, clear_sequence, Event, print, execute, csi_dispatch, esc_dispatch, osc_dispatch,
  dcs_hook, dcs_put, dcs_unhook,
}
use ar_term.VtParser.Machine as Machine
use ar_term.VtParser.Machine.{advance}
use ar_term.VtParser.Invariant as Parser
use ar_term.VtParser.Safety.{advance-Holds, initial-IsValid}
use ar_term.Terminal.Modes.{Terminal, Signal, screen_changed, Outcome}
use ar_term.Terminal.Osc.{QtText}
use ar_term.Terminal.Valid.{IsValid, start-IsValid, max_ℤ-max_ℤ}
use ar_term.Terminal.Handlers.{print-IsValid, execute-IsValid, esc_dispatch-IsValid}
use ar_term.Terminal.Dispatch.{csi_dispatch-IsValid}
use ar_term.Terminal.Title.{osc_dispatch-IsValid}
use ar_term.Terminal.Receive.{
  Emulator, new_emulator, is_full_reset, handle, handle_all, receive_byte, receive_bytes, receive,
  resize_terminal, limit_scrollback,
}
use ar_term.Screen.Fits.{set_scrollback_limit-Fits}
use ar_term.Screen.Measure.{resize-Fits}
use ar_term.Screen.{Screen}
use ar_term.Screen.Valid as Grid
use ar_term.Screen.Frame.{Fits}
use ar_term.Screen.Resize.{resize}

-- A width at which a double-width character has room and no `int` overflows.
abbrev pub IsUsual : ℕ → Type 0
IsUsual columns = (2 ≤ columns) × (columns ≤ 2 ^ 30)

-- The terminal is valid at its size, and so is its parser.
abbrev pub IsSound : ℕ → ℕ → Emulator → Type 0
IsSound columns rows e = IsValid columns rows e.terminal × Parser.IsValid e.parser

-- A result, and a sound one.
abbrev pub Survives : ℕ → ℕ → Option (Emulator × List Signal) → Type 0
Survives columns rows o =
    (f : Emulator) × (signals : List Signal) × (o ≡ some (f, signals)) × IsSound columns rows f

abbrev Returns : ℕ → ℕ → Option Outcome → Type 0
Returns columns rows o =
    (u : Terminal) × (signals : List Signal) × (o ≡ some (u, signals)) × IsValid columns rows u

pub parser_reset-IsValid : (p : VtParser) → Parser.IsValid p → Parser.IsValid (Machine.reset p)
unfolding Machine.reset clear_sequence
parser_reset-IsValid p h = record {
  sequence_fits = initial-IsValid.sequence_fits;
  started = λ e. absurd (ground (arith, e));
  utf8_fits = record {
    three = ground arith;
    two = ground arith;
    one = ground arith;
    remaining_le = omega arith;
  };
  osc_fits = record {
    payload_le = omega arith;
    pending = λ e. absurd (ground (arith, e));
    payload_owned = inl refl;
  };
}

module _ {columns rows : ℕ} (qt : QtText) where
  handle-Returns :
      (event : Event) (t : Terminal)
      → Parser.IsSafe event
      → IsUsual columns
      → IsValid columns rows t
      → Returns columns rows (handle qt event t)
  unfolding handle
  handle-Returns (print code_point) t safe room h =
      let (u, e, valid) = print-IsValid t code_point h room.0 in rw (e, handle) (u, [], refl, valid)
  handle-Returns (execute control) t safe room h = (_, _, refl, execute-IsValid t control h)
  handle-Returns (csi_dispatch sequence) t safe room h =
      (_, _, refl, csi_dispatch-IsValid sequence t h safe room.1)
  handle-Returns (esc_dispatch sequence) t safe room h =
      (_, _, refl, esc_dispatch-IsValid t sequence h)
  handle-Returns (osc_dispatch payload) t safe room h =
      (_, _, refl, osc_dispatch-IsValid qt payload t h)
  handle-Returns (dcs_hook sequence) t safe room h = (_, _, refl, h)
  handle-Returns (dcs_put byte) t safe room h = (_, _, refl, h)
  handle-Returns dcs_unhook t safe room h = (_, _, refl, h)

  handle_all-Survives :
      (events : List Event) (e : Emulator)
      → All Parser.IsSafe events
      → IsUsual columns
      → IsSound columns rows e
      → Survives columns rows (handle_all qt events e)
  unfolding handle_all
  handle_all-Survives [] e safe room h = (e, [], refl, h)
  handle_all-Survives (event ∷ rest) e safe room h =
      let (t, signals, eq, valid) = handle-Returns event e.terminal safe.0 room h.0 in
      let parser = if is_full_reset event then Machine.reset e.parser else e.parser in
      let parser_valid =
        if_lem Parser.IsValid (is_full_reset event) _ _ (parser_reset-IsValid e.parser h.1) h.1 in
      let (f, more, eq_rest, sound) =
        handle_all-Survives rest (record { terminal = t; parser = parser }) safe.1 room
          (valid, parser_valid) in
      rw (eq, eq_rest, handle_all) (f, signals ++ more, refl, sound)

  receive_byte-Survives :
      (byte : ℕ) (e : Emulator)
      → byte < 256
      → IsUsual columns
      → IsSound columns rows e
      → Survives columns rows (receive_byte qt byte e)
  unfolding receive_byte
  receive_byte-Survives byte e lt room h =
      let (valid, safe) = advance-Holds e.parser byte lt h.1 in
      handle_all-Survives (advance e.parser byte).1
        (record e { parser = (advance e.parser byte).0 }) safe room (h.0, valid)

  receive_bytes-Survives :
      (bytes : List ℕ) (e : Emulator)
      → All (λ byte. byte < 256) bytes
      → IsUsual columns
      → IsSound columns rows e
      → Survives columns rows (receive_bytes qt bytes e)
  unfolding receive_bytes
  receive_bytes-Survives [] e lt room h = (e, [], refl, h)
  receive_bytes-Survives (byte ∷ rest) e lt room h =
      let (f, signals, eq, sound) = receive_byte-Survives byte e lt.0 room h in
      let (g, more, eq_rest, sound_rest) = receive_bytes-Survives rest f lt.1 room sound in
      rw (eq, eq_rest, receive_bytes) (g, signals ++ more, refl, sound_rest)

  -- On a terminal of 2 to 2 ^ 30 columns that is valid together with its parser, `receive` of any
  -- bytes, whatever Qt makes of a title, has a result, which is valid together with its parser and
  -- has the same size.
  pub receive-IsSound :
      (bytes : List ℕ) (e : Emulator)
      → All (λ byte. byte < 256) bytes
      → IsUsual columns
      → IsSound columns rows e
      → Survives columns rows (receive qt bytes e)
  unfolding receive
  receive-IsSound [] e lt room h = (e, [], refl, h)
  receive-IsSound (byte ∷ rest) e lt room h =
      let (f, signals, eq, sound) = receive_bytes-Survives (byte ∷ rest) e lt room h in
      rw (eq, receive) (f, signals ++ screen_changed ∷ [], refl, sound)

-- A new emulator is valid with its parser, at the size asked for, at least one by one.
pub new_emulator-IsSound :
    (columns rows : ℤ) → IsSound (max_ℤ 1 columns) (max_ℤ 1 rows) (new_emulator columns rows)
unfolding new_emulator
new_emulator-IsSound columns rows = (start-IsValid columns rows, initial-IsValid)

-- `resize` of a valid terminal makes it valid at the new size, at least one by one, with both
-- buffers of that size.
pub resize_terminal-IsValid :
    {width height : ℕ} (columns rows : ℤ) (t : Terminal)
    → IsValid width height t
    → IsValid (max_ℤ 1 columns) (max_ℤ 1 rows) (resize_terminal columns rows t).0
unfolding resize_terminal
resize_terminal-IsValid {width} {height} columns rows t h =
    let n = max_ℤ 1 columns in
    let m = max_ℤ 1 rows in
    elim (Bool-cases (n == t.columns && m == t.rows)) [
      | inl same ↦
          let wide : width ≡ n = ground (arith, same, h.columns_eq) in
          let high : height ≡ m = ground (arith, same, h.rows_eq) in
          rw same (subst (λ a. IsValid a m t) wide (subst (λ b. IsValid width b t) high h))
      | inr other ↦ rw other (record {
        columns_eq = refl;
        rows_eq = refl;
        normal_fits = again t.normal h.normal_fits.0;
        alternate_fits = again t.alternate h.alternate_fits.0;
        agrees = h.agrees;
        charset_le = h.charset_le;
        saved_le = h.saved_le;
        saved_alternate_le = h.saved_alternate_le;
        title_clean = h.title_clean;
        title_le = h.title_le;
      })
    ]
  where
    again :
        (s : Screen)
        → Grid.IsValid s
        → Fits
            (max_ℤ 1 columns)
            (max_ℤ 1 rows)
            (resize s (pos (max_ℤ 1 columns)) (pos (max_ℤ 1 rows)))
    again s k =
        subst (λ a. Fits a (max_ℤ 1 rows) (resize s (pos (max_ℤ 1 columns)) (pos (max_ℤ 1 rows))))
          (max_ℤ-max_ℤ columns)
          (subst
            (λ b.
              Fits (max_ℤ 1 (pos (max_ℤ 1 columns))) b
                (resize s (pos (max_ℤ 1 columns)) (pos (max_ℤ 1 rows))))
            (max_ℤ-max_ℤ rows) (resize-Fits s (pos (max_ℤ 1 columns)) (pos (max_ℤ 1 rows)) k))

-- A new scrollback limit, a negative one counting as none, keeps a valid terminal valid.
pub limit_scrollback-IsValid :
    {columns rows : ℕ} (lines : ℤ) (t : Terminal)
    → IsValid columns rows t
    → IsValid columns rows (limit_scrollback lines t).0
unfolding limit_scrollback
limit_scrollback-IsValid lines t h = record {
  columns_eq = h.columns_eq;
  rows_eq = h.rows_eq;
  normal_fits = set_scrollback_limit-Fits t.normal (pos (max_ℤ 0 lines)) h.normal_fits;
  alternate_fits = h.alternate_fits;
  agrees = h.agrees;
  charset_le = h.charset_le;
  saved_le = h.saved_le;
  saved_alternate_le = h.saved_alternate_le;
  title_clean = h.title_clean;
  title_le = h.title_le;
}
