-- ===== src/VtParser/Machine.antt =====
-- `VtParser::advance`, one function for each case of its switch, and `parse` and `reset`.
use ar_term.Prelude.{
  ℕ, Bool, true, false, not, ◌&&◌, ◌||◌, List, [], ◌∷◌, ◌++◌, ltb, leb, ◌==◌, if◌then◌else◌, length,
}
use ar_term.VtParser.{
  Event, print, execute, csi_dispatch, esc_dispatch, osc_dispatch, dcs_hook, dcs_put, dcs_unhook,
  State, ground, escape, escape_intermediate, csi_entry, csi_param, csi_intermediate, csi_ignore,
  dcs_entry, dcs_param, dcs_intermediate, dcs_passthrough, dcs_ignore, osc_string,
  sos_pm_apc_string, VtParser, replacement_character, is_c0, is_intermediate, is_parameter,
  is_final, is_escape_final, is_private_marker, clear_sequence, collect_parameter,
  collect_intermediate, decode_utf8,
}

abbrev pub Outcome : Type 0
Outcome = VtParser × List Event

abbrev pub to : State → VtParser → Outcome
to s p = (record p { state = s }, [])

-- `m_sequence.final = byte`, the dispatch and the change of state
unfoldable pub finish_csi : VtParser → ℕ → Outcome
finish_csi p byte =
    let sequence = record p.sequence { final = byte } in
    (record p { sequence = sequence; state = ground }, csi_dispatch sequence ∷ [])

unfoldable pub finish_dcs : VtParser → ℕ → Outcome
finish_dcs p byte =
    let sequence = record p.sequence { final = byte } in
    (record p { sequence = sequence; state = dcs_passthrough }, dcs_hook sequence ∷ [])

unfoldable pub mark_private : State → VtParser → ℕ → Outcome
mark_private s p byte = to s (record p { sequence = record p.sequence { private_marker = byte } })

unfoldable pub finish_osc : VtParser → Outcome
finish_osc p = (record p { osc_payload = []; state = ground }, osc_dispatch p.osc_payload ∷ [])

unfoldable pub in_ground : VtParser → ℕ → Outcome
in_ground p byte = if is_c0 byte then (p, execute byte ∷ []) else decode_utf8 p byte

unfoldable pub in_escape : VtParser → ℕ → Outcome
in_escape p byte =
    if is_c0 byte
    then (p, execute byte ∷ [])
    else if is_intermediate byte
    then to escape_intermediate (collect_intermediate p byte)
    else if byte == b'['
    then to csi_entry (clear_sequence p)
    else if byte == b']'
    then to osc_string (record p { osc_payload = [] })
    else if byte == b'P'
    then to dcs_entry (clear_sequence p)
    else if byte == b'X' || byte == b'^' || byte == b'_'
    then to sos_pm_apc_string p
    else if is_escape_final byte
    then (
      record p { state = ground },
      esc_dispatch (record { intermediate = 0; final = byte }) ∷ [],
    )
    else (p, [])

unfoldable pub in_escape_intermediate : VtParser → ℕ → Outcome
in_escape_intermediate p byte =
    if is_c0 byte
    then (p, execute byte ∷ [])
    else if is_intermediate byte
    then (collect_intermediate p byte, [])
    else if is_escape_final byte
    then (
      record p { state = ground },
      esc_dispatch (record { intermediate = p.sequence.intermediate; final = byte }) ∷ [],
    )
    else (p, [])

unfoldable pub in_csi_entry : VtParser → ℕ → Outcome
in_csi_entry p byte =
    if is_c0 byte
    then (p, execute byte ∷ [])
    else if is_private_marker byte
    then mark_private csi_param p byte
    else if is_parameter byte
    then to csi_param (collect_parameter p byte)
    else if is_intermediate byte
    then to csi_intermediate (collect_intermediate p byte)
    else if is_final byte
    then finish_csi p byte
    else to csi_ignore p

unfoldable pub in_csi_param : VtParser → ℕ → Outcome
in_csi_param p byte =
    if is_c0 byte
    then (p, execute byte ∷ [])
    else if is_parameter byte
    then (if is_private_marker byte then to csi_ignore p else (collect_parameter p byte, []))
    else if is_intermediate byte
    then to csi_intermediate (collect_intermediate p byte)
    else if is_final byte
    then finish_csi p byte
    else to csi_ignore p

unfoldable pub in_csi_intermediate : VtParser → ℕ → Outcome
in_csi_intermediate p byte =
    if is_c0 byte
    then (p, execute byte ∷ [])
    else if is_intermediate byte
    then (collect_intermediate p byte, [])
    else if is_parameter byte
    then to csi_ignore p
    else if is_final byte
    then finish_csi p byte
    else (p, [])

unfoldable pub in_csi_ignore : VtParser → ℕ → Outcome
in_csi_ignore p byte =
    if is_c0 byte then (p, execute byte ∷ []) else if is_final byte then to ground p else (p, [])

unfoldable pub in_dcs_entry : VtParser → ℕ → Outcome
in_dcs_entry p byte =
    if is_private_marker byte
    then mark_private dcs_param p byte
    else if is_parameter byte
    then to dcs_param (collect_parameter p byte)
    else if is_intermediate byte
    then to dcs_intermediate (collect_intermediate p byte)
    else if is_final byte
    then finish_dcs p byte
    else to dcs_ignore p

unfoldable pub in_dcs_param : VtParser → ℕ → Outcome
in_dcs_param p byte =
    if is_parameter byte && not (is_private_marker byte)
    then (collect_parameter p byte, [])
    else if is_intermediate byte
    then to dcs_intermediate (collect_intermediate p byte)
    else if is_final byte
    then finish_dcs p byte
    else to dcs_ignore p

unfoldable pub in_dcs_intermediate : VtParser → ℕ → Outcome
in_dcs_intermediate p byte =
    if is_intermediate byte
    then (collect_intermediate p byte, [])
    else if is_final byte
    then finish_dcs p byte
    else to dcs_ignore p

unfoldable pub in_dcs_passthrough : VtParser → ℕ → Outcome
in_dcs_passthrough p byte =
    if byte == 0x9C
    then (record p { state = ground }, dcs_unhook ∷ [])
    else if not (byte == 0x7F)
    then (p, dcs_put byte ∷ [])
    else (p, [])

-- `DcsIgnore` and `SosPmApcString`
unfoldable pub in_ignored_string : VtParser → ℕ → Outcome
in_ignored_string p byte = if byte == 0x9C then to ground p else (p, [])

abbrev pub osc_limit : ℕ
osc_limit = 1048576

unfoldable pub in_osc_string : VtParser → ℕ → Outcome
in_osc_string p byte =
    if byte == 0x07 || byte == 0x9C
    then finish_osc p
    else if (leb 0x20 byte || byte == 0x09) && ltb (length p.osc_payload) osc_limit
    then (record p { osc_payload = p.osc_payload ++ byte ∷ [] }, [])
    else (p, [])

-- The switch over the state.
unfoldable pub in_state : State → VtParser → ℕ → Outcome
in_state ground p byte = in_ground p byte
in_state escape p byte = in_escape p byte
in_state escape_intermediate p byte = in_escape_intermediate p byte
in_state csi_entry p byte = in_csi_entry p byte
in_state csi_param p byte = in_csi_param p byte
in_state csi_intermediate p byte = in_csi_intermediate p byte
in_state csi_ignore p byte = in_csi_ignore p byte
in_state dcs_entry p byte = in_dcs_entry p byte
in_state dcs_param p byte = in_dcs_param p byte
in_state dcs_intermediate p byte = in_dcs_intermediate p byte
in_state dcs_passthrough p byte = in_dcs_passthrough p byte
in_state dcs_ignore p byte = in_ignored_string p byte
in_state sos_pm_apc_string p byte = in_ignored_string p byte
in_state osc_string p byte = in_osc_string p byte

-- `if (m_state == State::DcsPassthrough) m_handler.dcsUnhook();`
abbrev pub unhook : State → List Event
unhook dcs_passthrough = dcs_unhook ∷ []
unhook _ = []

abbrev is_osc_string : State → Bool
is_osc_string osc_string = true
is_osc_string _ = false

unfoldable pub on_escape : VtParser → Outcome
on_escape p = (
  record (clear_sequence p) {
    osc_terminator_pending = is_osc_string p.state;
    osc_payload = if is_osc_string p.state then p.osc_payload else [];
    state = escape;
  },
  unhook p.state,
)

unfoldable pub on_cancel : VtParser → ℕ → Outcome
on_cancel p byte = (
  record p { osc_terminator_pending = false; osc_payload = []; state = ground },
  unhook p.state ++ (if byte == 0x1A then print replacement_character ∷ [] else []),
)

-- After "ESC" in an OSC: a backslash flushes the payload, anything else abandons it.
unfoldable pub after_osc_escape : VtParser → ℕ → Outcome
after_osc_escape p byte =
    if byte == b'\\'
    then finish_osc (record p { osc_terminator_pending = false })
    else in_state p.state (record p { osc_terminator_pending = false; osc_payload = [] }) byte

unfoldable pub advance : VtParser → ℕ → Outcome
advance p byte =
    if byte == 0x1B
    then on_escape p
    else if byte == 0x18 || byte == 0x1A
    then on_cancel p byte
    else if p.osc_terminator_pending
    then after_osc_escape p byte
    else in_state p.state p byte

-- The loop of `parse` over a chunk.
unfoldable pub parse : VtParser → List ℕ → Outcome
parse p [] = (p, [])
parse p (byte ∷ rest) =
    let (q, events) = advance p byte in let (r, more) = parse q rest in (r, events ++ more)

unfoldable pub reset : VtParser → VtParser
reset p = record (clear_sequence p) {
  state = ground;
  osc_payload = [];
  osc_terminator_pending = false;
  utf8_remaining = 0;
  utf8_code_point = 0;
}
