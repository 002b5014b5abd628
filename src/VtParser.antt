-- ===== src/VtParser.antt =====
-- src/terminal/VtParser.hpp and the collecting and decoding parts of src/terminal/VtParser.cpp.
-- A byte is a number below 256. A call of the handler is an `Event`, and a member function returns
-- the parser that it leaves behind and the events that it raised, in order.
pub mod Machine
pub mod Invariant
pub mod Safety
pub mod Runs
pub mod Utf8
pub mod Numbers
pub mod Csi
pub mod Osc
pub mod Recovery
pub mod Discipline
use ar_term.Prelude.{
  ℕ, ◌+◌, ◌*◌, ◌-◌, ◌/◌, ◌%◌, ◌^◌, Bool, true, false, not, ◌&&◌, ◌||◌, List, [], ◌∷◌, ◌++◌, ltb,
  leb, ◌==◌, if◌then◌else◌, get_or, set, replicate,
}
use ar_term.Prelude.Int.{ℤ, pos, negsuc, ltb_ℤ}

abbrev pub max_parameters : ℕ
max_parameters = 32

-- An omitted parameter is -1.
pub record CsiSequence : Type 0 where
  pub parameters : List ℤ
  pub sub_parameter_count : List ℕ
  pub parameter_count : ℕ
  pub private_marker : ℕ
  pub intermediate : ℕ
  pub final : ℕ

abbrev empty_sequence : CsiSequence
empty_sequence = record {
  parameters = replicate max_parameters (pos 0);
  sub_parameter_count = replicate max_parameters 0;
  parameter_count = 0;
  private_marker = 0;
  intermediate = 0;
  final = 0;
}

-- `CsiSequence::parameter`; the index is not negative in any call.
unfoldable pub parameter : CsiSequence → ℕ → ℤ → ℤ
parameter s index fallback =
    if leb s.parameter_count index
    then fallback
    else if ltb_ℤ (get_or s.parameters index fallback) (pos 0)
    then fallback
    else get_or s.parameters index fallback

-- `CsiSequence::positiveParameter`
unfoldable pub positive_parameter : CsiSequence → ℕ → ℤ → ℤ
unfolding parameter
positive_parameter s index fallback =
    if ltb_ℤ (pos 0) (parameter s index fallback) then parameter s index fallback else fallback

pub record EscSequence : Type 0 where
  pub intermediate : ℕ
  pub final : ℕ

-- The calls of `VtHandler`.
pub data Event : Type 0 where
  print : ℕ → Event
  execute : ℕ → Event
  csi_dispatch : CsiSequence → Event
  esc_dispatch : EscSequence → Event
  osc_dispatch : List ℕ → Event
  dcs_hook : CsiSequence → Event
  dcs_put : ℕ → Event
  dcs_unhook : Event

pub data State : Type 0 where
  ground escape escape_intermediate : State
  csi_entry csi_param csi_intermediate csi_ignore : State
  dcs_entry dcs_param dcs_intermediate dcs_passthrough dcs_ignore : State
  osc_string sos_pm_apc_string : State

pub record VtParser : Type 0 where
  pub state : State
  pub sequence : CsiSequence
  pub osc_payload : List ℕ
  pub osc_terminator_pending : Bool
  pub parameter_started : Bool
  pub utf8_code_point : ℕ
  pub utf8_remaining : ℕ
  pub utf8_minimum : ℕ

abbrev pub initial : VtParser
initial = record {
  state = ground;
  sequence = empty_sequence;
  osc_payload = [];
  osc_terminator_pending = false;
  parameter_started = false;
  utf8_code_point = 0;
  utf8_remaining = 0;
  utf8_minimum = 0;
}

abbrev pub replacement_character : ℕ
replacement_character = 0xFFFD

unfoldable pub is_c0 : ℕ → Bool
is_c0 byte = leb byte 0x17 || byte == 0x19 || leb 0x1C byte && leb byte 0x1F

unfoldable pub is_intermediate : ℕ → Bool
is_intermediate byte = leb 0x20 byte && leb byte 0x2F

unfoldable pub is_parameter : ℕ → Bool
is_parameter byte = leb 0x30 byte && leb byte 0x3F

unfoldable pub is_final : ℕ → Bool
is_final byte = leb 0x40 byte && leb byte 0x7E

unfoldable pub is_escape_final : ℕ → Bool
is_escape_final byte = leb 0x30 byte && leb byte 0x7E

-- `byte >= 0x3C && byte <= 0x3F`
unfoldable pub is_private_marker : ℕ → Bool
is_private_marker byte = leb 0x3C byte && leb byte 0x3F

unfoldable pub clear_sequence : VtParser → VtParser
clear_sequence p = record p { sequence = empty_sequence; parameter_started = false }

-- The first half of `collectParameter`: a separator, ';' or ':'.
unfoldable pub omit_parameter : Bool → CsiSequence → CsiSequence
omit_parameter started s =
    if not started && ltb s.parameter_count max_parameters
    then record s {
      parameters = set s.parameters s.parameter_count (negsuc 0);
      parameter_count = s.parameter_count + 1;
    }
    else s

unfoldable pub count_sub_parameter : ℕ → CsiSequence → CsiSequence
count_sub_parameter byte s =
    if byte == b':' && ltb 0 s.parameter_count
    then record s {
      sub_parameter_count =
          set s.sub_parameter_count (s.parameter_count - 1)
            (get_or s.sub_parameter_count (s.parameter_count - 1) 0 + 1);
    }
    else s

-- A digit appended to a parameter, which is -1 or at least 0, with the clamp.
unfoldable pub append_digit : ℤ → ℕ → ℤ
append_digit (pos value) digit = if ltb value 100000 then pos (value * 10 + digit) else pos value
append_digit (negsuc n) digit = pos digit

-- The second half: the slot of the current parameter is opened by its first digit.
unfoldable pub open_parameter : Bool → CsiSequence → CsiSequence
open_parameter started s = if started then s else record s {
  parameters = set s.parameters s.parameter_count (pos 0);
  parameter_count = s.parameter_count + 1;
}

unfoldable pub write_digit : ℕ → CsiSequence → CsiSequence
write_digit digit s = record s {
  parameters =
      set s.parameters (s.parameter_count - 1)
        (append_digit (get_or s.parameters (s.parameter_count - 1) (pos 0)) digit);
}

unfoldable pub collect_parameter : VtParser → ℕ → VtParser
collect_parameter p byte =
    if byte == b';' || byte == b':'
    then record p {
      sequence = count_sub_parameter byte (omit_parameter p.parameter_started p.sequence);
      parameter_started = false;
    }
    else if ltb byte b'0' || ltb b'9' byte
    then p
    else if leb max_parameters p.sequence.parameter_count
    then p
    else record p {
      sequence = write_digit (byte - b'0') (open_parameter p.parameter_started p.sequence);
      parameter_started = true;
    }

unfoldable pub collect_intermediate : VtParser → ℕ → VtParser
collect_intermediate p byte =
    if p.sequence.intermediate == 0
    then record p { sequence = record p.sequence { intermediate = byte } }
    else p

-- `decodeUtf8` with no sequence in progress. The masks are written as quotients: for a byte,
-- (byte & 0xE0) == 0xC0 says byte / 32 == 6, and byte & 0x1F is byte % 32.
unfoldable pub decode_lead : VtParser → ℕ → VtParser × List Event
decode_lead p byte =
    if ltb byte 0x80
    then (p, print byte ∷ [])
    else if byte / 32 == 6
    then (record p { utf8_code_point = byte % 32; utf8_remaining = 1; utf8_minimum = 0x80 }, [])
    else if byte / 16 == 14
    then (record p { utf8_code_point = byte % 16; utf8_remaining = 2; utf8_minimum = 0x800 }, [])
    else if byte / 8 == 30
    then (record p { utf8_code_point = byte % 8; utf8_remaining = 3; utf8_minimum = 0x10000 }, [])
    else (p, print replacement_character ∷ [])

-- The check of a completed code point: not overlong, no surrogate, not above U+10FFFF.
unfoldable pub checked : ℕ → ℕ → ℕ
checked minimum c =
    if ltb c minimum || (leb 0xD800 c && leb c 0xDFFF) || ltb 0x10FFFF c
    then replacement_character
    else c

-- (m_utf8CodePoint << 6) | (byte & 0x3F) on 32 bits
abbrev pub shift_in : ℕ → ℕ → ℕ
shift_in c byte = c * 64 % 2 ^ 32 + byte % 64

unfoldable pub decode_continuation : VtParser → ℕ → VtParser × List Event
decode_continuation p byte =
    if ltb 0 (p.utf8_remaining - 1)
    then (
      record p {
        utf8_code_point = shift_in p.utf8_code_point byte;
        utf8_remaining = p.utf8_remaining - 1;
      },
      [],
    )
    else (
      record p { utf8_code_point = 0; utf8_remaining = p.utf8_remaining - 1 },
      print (checked p.utf8_minimum (shift_in p.utf8_code_point byte)) ∷ [],
    )

-- A byte that does not continue the sequence ends it with U+FFFD and is decoded afresh.
unfoldable pub restart : VtParser → ℕ → VtParser × List Event
restart p byte =
    let (q, events) = decode_lead (record p { utf8_remaining = 0 }) byte in
    (q, print replacement_character ∷ events)

unfoldable pub decode_utf8 : VtParser → ℕ → VtParser × List Event
decode_utf8 p byte =
    if p.utf8_remaining == 0
    then decode_lead p byte
    else if not (byte / 64 == 2)
    then restart p byte
    else decode_continuation p byte
