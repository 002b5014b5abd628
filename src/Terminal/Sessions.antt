-- ===== src/Terminal/Sessions.antt =====
-- Runs of the emulator of src/terminal/Terminal.cpp: what its owner may do in turn.
use ar_term.Prelude.{ℕ, ◌<◌, ◌≡◌, Option, some, List, All}
use ar_term.Prelude.Int.{ℤ, max_ℤ}
use ar_term.VtParser.Machine as Machine
use ar_term.Terminal.Modes.{Signal, Outcome, reset}
use ar_term.Terminal.Osc.{QtText}
use ar_term.Terminal.Receive.{Emulator, new_emulator, receive, resize_terminal, limit_scrollback}
use ar_term.Terminal.Stream.{IsUsual, IsSound}

-- The public members that change an emulator.
pub data Action : Type 0 where
  do_receive : (bytes : List ℕ) → Action
  do_resize : (columns rows : ℤ) → Action
  do_limit_scrollback : (lines : ℤ) → Action
  do_reset : Action

-- `Terminal::reset`
unfoldable reset_emulator : Emulator → Emulator × List Signal
unfolding reset Machine.reset
reset_emulator e =
    let (t, signals) = reset e.terminal in
    (record { terminal = t; parser = Machine.reset e.parser }, signals)

-- The part of an outcome that goes on with the same parser.
abbrev with_terminal : Emulator → Outcome → Emulator × List Signal
with_terminal e (t, signals) = (record e { terminal = t }, signals)

unfoldable pub act : QtText → Action → Emulator → Option (Emulator × List Signal)
unfolding receive resize_terminal limit_scrollback reset_emulator
act qt (do_receive bytes) e = receive qt bytes e
act qt (do_resize columns rows) e = some (with_terminal e (resize_terminal columns rows e.terminal))
act qt (do_limit_scrollback lines) e = some (with_terminal e (limit_scrollback lines e.terminal))
act qt do_reset e = some (reset_emulator e)

-- Bytes are bytes, and a resize asks for 2 to 2 ^ 30 columns.
abbrev IsFair : Action → Type 0
IsFair (do_receive bytes) = All (λ byte. byte < 256) bytes
IsFair (do_resize columns rows) = IsUsual (max_ℤ 1 columns)
IsFair _ = Unit

-- What an emulator that was made with 2 to 2 ^ 30 columns can become.
pub data Session (qt : QtText) : Emulator → Type 0 where
  created : (columns rows : ℤ) → IsUsual (max_ℤ 1 columns) → Session qt (new_emulator columns rows)
  acted :
      (action : Action) (e f : Emulator) (signals : List Signal)
      → Session qt e
      → IsFair action
      → act qt action e ≡ some (f, signals)
      → Session qt f

-- Valid at some size of 2 to 2 ^ 30 columns.
abbrev IsWide : Emulator → Type 0
IsWide e = (columns : ℕ) × (rows : ℕ) × IsUsual columns × IsSound columns rows e

abbrev pub Continues : Option (Emulator × List Signal) → Type 0
Continues o = (f : Emulator) × (signals : List Signal) × (o ≡ some (f, signals)) × IsWide f
