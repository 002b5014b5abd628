-- ===== src/VtParser/Safety.antt =====
-- Every byte keeps the parser valid and raises only calls that are safe for the handler.
use ar_term.Prelude.{
  ℕ, ◌<◌, ◌≡◌, refl, true, false, List, [], ◌∷◌, arith, length-append, All, All-append,
}
use ar_term.VtParser.{
  State, ground as ground_state, escape, escape_intermediate, csi_entry, csi_param,
  csi_intermediate, csi_ignore, dcs_entry, dcs_param, dcs_intermediate, dcs_passthrough, dcs_ignore,
  osc_string, sos_pm_apc_string, VtParser, initial, is_c0, clear_sequence,
}
use ar_term.VtParser.Machine.{
  Outcome, advance, parse, reset, in_ground, in_escape, in_escape_intermediate, in_csi_entry,
  in_csi_param, in_csi_intermediate, in_csi_ignore, in_dcs_entry, in_dcs_param, in_dcs_intermediate,
  in_dcs_passthrough, in_ignored_string, in_osc_string, in_state, on_escape, on_cancel,
  after_osc_escape, finish_csi, finish_dcs, finish_osc, mark_private,
}
use ar_term.VtParser.Invariant.{
  IsValid, IsCalm, IsSafe, Holds, Calmly, collect_parameter-IsCalm, collect_intermediate-IsCalm,
  decode_utf8-Calmly,
}

module _ (p : VtParser) (byte : ℕ) (lt : byte < 256) (h : IsCalm p) where
  in_ground-Calmly : Calmly (in_ground p byte)
  unfolding in_ground is_c0
  in_ground-Calmly = ground (arith, decode_utf8-Calmly p byte h lt)

  in_escape-Calmly : Calmly (in_escape p byte)
  unfolding in_escape is_c0 clear_sequence
  in_escape-Calmly = ground (arith, collect_intermediate-IsCalm p byte h)

  in_escape_intermediate-Calmly : Calmly (in_escape_intermediate p byte)
  unfolding in_escape_intermediate is_c0
  in_escape_intermediate-Calmly = ground (arith, collect_intermediate-IsCalm p byte h)

  in_csi_entry-Calmly : Calmly (in_csi_entry p byte)
  unfolding in_csi_entry is_c0 finish_csi mark_private
  in_csi_entry-Calmly =
      ground (arith, collect_intermediate-IsCalm p byte h, collect_parameter-IsCalm p byte h)

  in_csi_param-Calmly : Calmly (in_csi_param p byte)
  unfolding in_csi_param is_c0 finish_csi
  in_csi_param-Calmly =
      ground (arith, collect_intermediate-IsCalm p byte h, collect_parameter-IsCalm p byte h)

  in_csi_intermediate-Calmly : Calmly (in_csi_intermediate p byte)
  unfolding in_csi_intermediate is_c0 finish_csi
  in_csi_intermediate-Calmly = ground (arith, collect_intermediate-IsCalm p byte h)

  in_csi_ignore-Calmly : Calmly (in_csi_ignore p byte)
  unfolding in_csi_ignore is_c0
  in_csi_ignore-Calmly = ground (arith)

  in_dcs_entry-Calmly : Calmly (in_dcs_entry p byte)
  unfolding in_dcs_entry finish_dcs mark_private
  in_dcs_entry-Calmly =
      ground (arith, collect_intermediate-IsCalm p byte h, collect_parameter-IsCalm p byte h)

  in_dcs_param-Calmly : Calmly (in_dcs_param p byte)
  unfolding in_dcs_param finish_dcs
  in_dcs_param-Calmly =
      ground (arith, collect_intermediate-IsCalm p byte h, collect_parameter-IsCalm p byte h)

  in_dcs_intermediate-Calmly : Calmly (in_dcs_intermediate p byte)
  unfolding in_dcs_intermediate finish_dcs
  in_dcs_intermediate-Calmly = ground (arith, collect_intermediate-IsCalm p byte h)

  in_dcs_passthrough-Calmly : Calmly (in_dcs_passthrough p byte)
  unfolding in_dcs_passthrough
  in_dcs_passthrough-Calmly = ground (arith)

  in_ignored_string-Calmly : Calmly (in_ignored_string p byte)
  unfolding in_ignored_string
  in_ignored_string-Calmly = ground (arith)

IsCalm-IsValid : (p : VtParser) → IsCalm p → IsValid p
IsCalm-IsValid p h = ground arith

Calmly-Holds : (o : Outcome) → Calmly o → Holds o
Calmly-Holds (p, events) (h, safe) = (IsCalm-IsValid p h, safe)

in_osc_string-Holds :
    (p : VtParser) (byte : ℕ)
    → IsValid p
    → p.state ≡ osc_string
    → p.osc_terminator_pending ≡ false
    → Holds (in_osc_string p byte)
unfolding in_osc_string finish_osc
in_osc_string-Holds p byte h e n = ground (arith, length-append p.osc_payload (byte ∷ []))

in_state-Holds :
    (s : State) (p : VtParser) (byte : ℕ)
    → byte < 256
    → p.state ≡ s
    → p.osc_terminator_pending ≡ false
    → IsValid p
    → Holds (in_state s p byte)
unfolding in_state
in_state-Holds osc_string p byte lt e n h = in_osc_string-Holds p byte h e n
in_state-Holds ground_state p byte lt e n h =
    Calmly-Holds _ (in_ground-Calmly p byte lt (ground arith))
in_state-Holds escape p byte lt e n h = Calmly-Holds _ (in_escape-Calmly p byte lt (ground arith))
in_state-Holds escape_intermediate p byte lt e n h =
    Calmly-Holds _ (in_escape_intermediate-Calmly p byte lt (ground arith))
in_state-Holds csi_entry p byte lt e n h =
    Calmly-Holds _ (in_csi_entry-Calmly p byte lt (ground arith))
in_state-Holds csi_param p byte lt e n h =
    Calmly-Holds _ (in_csi_param-Calmly p byte lt (ground arith))
in_state-Holds csi_intermediate p byte lt e n h =
    Calmly-Holds _ (in_csi_intermediate-Calmly p byte lt (ground arith))
in_state-Holds csi_ignore p byte lt e n h =
    Calmly-Holds _ (in_csi_ignore-Calmly p byte lt (ground arith))
in_state-Holds dcs_entry p byte lt e n h =
    Calmly-Holds _ (in_dcs_entry-Calmly p byte lt (ground arith))
in_state-Holds dcs_param p byte lt e n h =
    Calmly-Holds _ (in_dcs_param-Calmly p byte lt (ground arith))
in_state-Holds dcs_intermediate p byte lt e n h =
    Calmly-Holds _ (in_dcs_intermediate-Calmly p byte lt (ground arith))
in_state-Holds dcs_passthrough p byte lt e n h =
    Calmly-Holds _ (in_dcs_passthrough-Calmly p byte lt (ground arith))
in_state-Holds dcs_ignore p byte lt e n h =
    Calmly-Holds _ (in_ignored_string-Calmly p byte lt (ground arith))
in_state-Holds sos_pm_apc_string p byte lt e n h =
    Calmly-Holds _ (in_ignored_string-Calmly p byte lt (ground arith))

on_escape-Holds : (p : VtParser) → IsValid p → Holds (on_escape p)
unfolding on_escape clear_sequence
on_escape-Holds p h = ground arith

on_cancel-Holds : (p : VtParser) (byte : ℕ) → IsValid p → Holds (on_cancel p byte)
unfolding on_cancel
on_cancel-Holds p byte h = ground arith

after_osc_escape-Holds :
    (p : VtParser) (byte : ℕ)
    → byte < 256
    → p.osc_terminator_pending ≡ true
    → IsValid p
    → Holds (after_osc_escape p byte)
unfolding after_osc_escape finish_osc
after_osc_escape-Holds p byte lt e h =
    let abandoned : VtParser = record p { osc_terminator_pending = false; osc_payload = [] } in
    let rest : Holds (in_state p.state abandoned byte) =
      in_state-Holds p.state abandoned byte lt refl refl (ground arith) in
    ground (arith, rest)

-- In a valid parser any byte leaves a valid parser, and the calls it makes are safe: printed
-- characters are Unicode scalar values, executed controls are below 0x20, sequences have their
-- arrays and counts in bounds with every parameter omitted or at most 999999, and an OSC payload
-- is at most 1 MiB.
pub advance-Holds : (p : VtParser) (byte : ℕ) → byte < 256 → IsValid p → Holds (advance p byte)
unfolding advance
advance-Holds p byte lt h = ground (
  arith,
  on_escape-Holds p h,
  on_cancel-Holds p byte h,
  after_osc_escape-Holds p byte lt,
  in_state-Holds p.state p byte lt refl,
)

pub initial-IsValid : IsValid initial
initial-IsValid = ground arith

-- So for a whole stream, from any valid parser.
pub parse-Holds :
    (p : VtParser) (bytes : List ℕ)
    → All (λ byte. byte < 256) bytes
    → IsValid p
    → Holds (parse p bytes)
unfolding parse
parse-Holds p [] lt h = (h, tt)
parse-Holds p (byte ∷ rest) lt h =
    let (q-IsValid, safe) = advance-Holds p byte lt.0 h in
    let (r-IsValid, more) = parse-Holds (advance p byte).0 rest lt.1 q-IsValid in
    (r-IsValid, All-append IsSafe (advance p byte).1 _ safe more)

-- `reset` gives a valid parser from any.
pub reset-IsValid : (p : VtParser) → IsValid (reset p)
unfolding reset clear_sequence
reset-IsValid p = ground arith
