-- ===== src/Terminal/Receive.antt =====
-- `Terminal` of src/terminal/Terminal.cpp as the handler of its parser, and `receive`, `resize` and
-- `setScrollbackLimit`.
use ar_term.Prelude.{
  ℕ, Bool, false, not, ◌&&◌, ◌||◌, ◌==◌, if◌then◌else◌, Option, none, some, List, [], ◌∷◌, ◌++◌,
}
use ar_term.Prelude.Int.{ℤ, pos, max_ℤ}
use ar_term.Screen.Resize.{resize}
use ar_term.Screen.Scroll.{set_scrollback_limit}
use ar_term.VtParser.{
  VtParser, Event, print, execute, csi_dispatch, esc_dispatch, osc_dispatch, dcs_hook, dcs_put,
  dcs_unhook, initial,
}
use ar_term.VtParser.Machine as Machine
use ar_term.Terminal.Modes.{Terminal, Signal, screen_changed, Outcome, start}
use ar_term.Terminal.Print as Print
use ar_term.Terminal.Csi as Csi
use ar_term.Terminal.Osc as Osc
use ar_term.Terminal.Osc.{QtText}

-- The class with its member `m_parser`.
pub record Emulator : Type 0 where
  pub terminal : Terminal
  pub parser : VtParser

unfoldable pub new_emulator : ℤ → ℤ → Emulator
unfolding start
new_emulator columns rows = record { terminal = start columns rows; parser = initial }

-- `escDispatch` reaches `reset`, which resets the parser too.
unfoldable pub is_full_reset : Event → Bool
is_full_reset (esc_dispatch s) =
    not (s.intermediate == b'(' || s.intermediate == b')') && s.final == b'c'
is_full_reset _ = false

module _ (qt : QtText) where
  -- One call of the handler. `none` is a write out of a line.
  unfoldable pub handle : Event → Terminal → Option Outcome
  unfolding Print.print Print.execute Print.esc_dispatch Csi.csi_dispatch Osc.osc_dispatch
  handle (print code_point) t = elim (Print.print code_point t) [
    | none ↦ none
    | some u ↦ some (u, [])
  ]
  handle (execute control) t = some (Print.execute control t)
  handle (csi_dispatch sequence) t = some (Csi.csi_dispatch sequence t)
  handle (esc_dispatch sequence) t = some (Print.esc_dispatch sequence t)
  handle (osc_dispatch payload) t = some (Osc.osc_dispatch qt payload t)
  handle (dcs_hook sequence) t = some (t, [])
  handle (dcs_put byte) t = some (t, [])
  handle dcs_unhook t = some (t, [])

  -- The calls in their order, on the emulator: the parser is the one that the calling member
  -- function leaves behind, in the state `Ground` after an escape sequence.
  unfoldable pub handle_all : List Event → Emulator → Option (Emulator × List Signal)
  unfolding handle is_full_reset Machine.reset
  handle_all [] e = some (e, [])
  handle_all (event ∷ rest) e = elim (handle event e.terminal) [
    | none ↦ none
    | some (t, signals) ↦
        let parser = if is_full_reset event then Machine.reset e.parser else e.parser in
        elim (handle_all rest (record { terminal = t; parser = parser })) [
          | none ↦ none
          | some (f, more) ↦ some (f, signals ++ more)
        ]
  ]

  unfoldable pub receive_byte : ℕ → Emulator → Option (Emulator × List Signal)
  unfolding Machine.advance handle_all
  receive_byte byte e =
      let (p, events) = Machine.advance e.parser byte in handle_all events (record e { parser = p })

  -- `m_parser.parse(data)`
  unfoldable pub receive_bytes : List ℕ → Emulator → Option (Emulator × List Signal)
  unfolding receive_byte
  receive_bytes [] e = some (e, [])
  receive_bytes (byte ∷ rest) e = elim (receive_byte byte e) [
    | none ↦ none
    | some (f, signals) ↦ elim (receive_bytes rest f) [
      | none ↦ none
      | some (g, more) ↦ some (g, signals ++ more)
    ]
  ]

  unfoldable pub receive : List ℕ → Emulator → Option (Emulator × List Signal)
  unfolding receive_bytes
  receive [] e = some (e, [])
  receive (byte ∷ rest) e = elim (receive_bytes (byte ∷ rest) e) [
    | none ↦ none
    | some (f, signals) ↦ some (f, signals ++ screen_changed ∷ [])
  ]

unfoldable pub resize_terminal : ℤ → ℤ → Terminal → Outcome
unfolding resize
resize_terminal columns rows t =
    let width = max_ℤ 1 columns in
    let height = max_ℤ 1 rows in
    if width == t.columns && height == t.rows then (t, []) else (
      record t {
        columns = width;
        rows = height;
        normal = resize t.normal (pos width) (pos height);
        alternate = resize t.alternate (pos width) (pos height);
      },
      screen_changed ∷ [],
    )

unfoldable pub limit_scrollback : ℤ → Terminal → Outcome
unfolding set_scrollback_limit
limit_scrollback lines t = (
  record t {
    scrollback_limit = max_ℤ 0 lines;
    normal = set_scrollback_limit t.normal (pos (max_ℤ 0 lines));
  },
  screen_changed ∷ [],
)
