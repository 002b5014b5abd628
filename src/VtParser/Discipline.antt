-- ===== src/VtParser/Discipline.antt =====
-- The order of the handler's calls for device control strings.
use ar_term.Prelude.{
  ℕ, ◌<◌, ◌≡◌, refl, ◌∙◌, Bool, true, false, List, [], ◌∷◌, ◌++◌, Option, none, some, arith, All,
}
use ar_term.VtParser.{
  Event, print, execute, csi_dispatch, esc_dispatch, osc_dispatch, dcs_hook, dcs_put, dcs_unhook,
  State, ground as ground_state, dcs_passthrough, VtParser, clear_sequence, collect_intermediate,
  decode_utf8, decode_lead, decode_continuation, restart,
}
use ar_term.VtParser.Machine.{
  Outcome, advance, parse, in_ground, in_escape, in_escape_intermediate, in_csi_entry, in_csi_param,
  in_csi_intermediate, in_csi_ignore, in_dcs_entry, in_dcs_param, in_dcs_intermediate,
  in_dcs_passthrough, in_ignored_string, in_osc_string, in_state, on_escape, on_cancel,
  after_osc_escape, finish_csi, finish_dcs, finish_osc, mark_private,
}
use ar_term.VtParser.Invariant.{IsValid}
use ar_term.VtParser.Safety.{advance-Holds}
use ar_term.VtParser.Numbers.{collect_parameter-state}

-- A checker of a list of calls: a string is opened by `dcsHook`, then only `dcsPut` may come until
-- `dcsUnhook` closes it. It answers whether a string is open at the end, or `none` on a violation.
pub check : Bool → List Event → Option Bool
check open_now [] = some open_now
check false (dcs_hook s ∷ rest) = check true rest
check false (dcs_put c ∷ rest) = none
check false (dcs_unhook ∷ rest) = none
check false (e ∷ rest) = check false rest
check true (dcs_put c ∷ rest) = check true rest
check true (dcs_unhook ∷ rest) = check false rest
check true (e ∷ rest) = none

abbrev pub is_passthrough : State → Bool
is_passthrough dcs_passthrough = true
is_passthrough _ = false

-- The outcome of a step from a state in which a string is open or not.
abbrev Fits : Bool → Outcome → Type 0
Fits open_now (p, events) = check open_now events ≡ some (is_passthrough p.state)

check-append :
    (b c : Bool) (xs ys : List Event) → check b xs ≡ some c → check b (xs ++ ys) ≡ check c ys
unfolding check
check-append false c [] ys h = ground arith
check-append true c [] ys h = ground arith
check-append false c (dcs_hook s ∷ xs) ys h = check-append true c xs ys h
check-append false c (dcs_put a ∷ xs) ys h = cc
check-append false c (dcs_unhook ∷ xs) ys h = cc
check-append false c (print a ∷ xs) ys h = check-append false c xs ys h
check-append false c (execute a ∷ xs) ys h = check-append false c xs ys h
check-append false c (csi_dispatch s ∷ xs) ys h = check-append false c xs ys h
check-append false c (esc_dispatch s ∷ xs) ys h = check-append false c xs ys h
check-append false c (osc_dispatch s ∷ xs) ys h = check-append false c xs ys h
check-append true c (dcs_put a ∷ xs) ys h = check-append true c xs ys h
check-append true c (dcs_unhook ∷ xs) ys h = check-append false c xs ys h
check-append true c (_ ∷ xs) ys h = cc

collect_intermediate-state :
    (p : VtParser) (byte : ℕ) → (collect_intermediate p byte).state ≡ p.state
unfolding collect_intermediate
collect_intermediate-state p byte = ground arith

decode_utf8-Fits :
    (p : VtParser) (byte : ℕ) → p.state ≡ ground_state → Fits false (decode_utf8 p byte)
unfolding decode_utf8 decode_lead decode_continuation restart check
decode_utf8-Fits p byte e = ground arith

in_state-Fits :
    (s : State) (p : VtParser) (byte : ℕ)
    → p.state ≡ s
    → Fits (is_passthrough s) (in_state s p byte)
unfolding in_state in_ground in_escape in_escape_intermediate in_csi_entry in_csi_param
    in_csi_intermediate in_csi_ignore in_dcs_entry in_dcs_param in_dcs_intermediate
    in_dcs_passthrough in_ignored_string in_osc_string finish_csi finish_dcs finish_osc mark_private
    check
in_state-Fits ground_state p byte e = ground (arith, decode_utf8-Fits p byte e)
in_state-Fits _ p byte e =
    ground (arith, collect_parameter-state p byte, collect_intermediate-state p byte)

advance-Fits :
    (p : VtParser) (byte : ℕ) → IsValid p → Fits (is_passthrough p.state) (advance p byte)
unfolding advance on_escape on_cancel after_osc_escape clear_sequence finish_osc check
advance-Fits p byte h =
    let abandoned : VtParser = record p { osc_terminator_pending = false; osc_payload = [] } in
    ground (
      arith,
      in_state-Fits p.state p byte refl,
      in_state-Fits p.state abandoned byte refl,
      h.osc_fits.pending,
    )

-- From a valid parser, the calls for device control strings are well bracketed whatever bytes
-- arrive: `dcsPut` comes only between a `dcsHook` and its `dcsUnhook`, no other call comes there,
-- hooks are not nested, and a string is open at the end exactly if the parser is passing one
-- through.
pub parse-check :
    (p : VtParser) (bytes : List ℕ)
    → All (λ byte. byte < 256) bytes
    → IsValid p
    → check (is_passthrough p.state) (parse p bytes).1
      ≡ some (is_passthrough (parse p bytes).0.state)
unfolding parse check
parse-check p [] lt h = ground arith
parse-check p (byte ∷ rest) lt h =
    let q = (advance p byte).0 in
    check-append (is_passthrough p.state) (is_passthrough q.state) (advance p byte).1
      (parse q rest).1 (advance-Fits p byte h)
    ∙ parse-check q rest lt.1 (advance-Holds p byte lt.0 h).0
