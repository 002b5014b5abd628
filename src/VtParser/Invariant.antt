-- ===== src/VtParser/Invariant.antt =====
-- The representation invariant of the parser and what may be said of every event it raises.
use ar_term.Prelude.{
  ℕ, ◌-◌, ◌≤◌, ◌<◌, ◌≡◌, ◌≢◌, refl, Bool, true, false, ◌⊎◌, [], arith, length, length-set, All,
  All-set, All-get_or, get_or,
}
use ar_term.Prelude.Int.{ℤ, pos, negsuc}
use ar_term.VtParser.{
  CsiSequence, Event, print, execute, csi_dispatch, esc_dispatch, osc_dispatch, dcs_hook, dcs_put,
  dcs_unhook, escape, osc_string, VtParser, collect_parameter, collect_intermediate, decode_utf8,
  omit_parameter, count_sub_parameter, open_parameter, write_digit, append_digit, decode_lead,
  decode_continuation, restart, checked, max_parameters, shift_in,
}
use ar_term.VtParser.Machine.{Outcome, osc_limit}

-- Omitted, or a number that the clamp lets through.
abbrev pub IsParameter : ℤ → Type 0
IsParameter (pos value) = value ≤ 999999
IsParameter (negsuc n) = n ≡ 0

-- The two arrays have their fixed size, and every index below the count is inside them.
pub record SequenceFits (s : CsiSequence) : Type 0 where
  pub parameters_size : length s.parameters ≡ max_parameters
  pub sub_parameters_size : length s.sub_parameter_count ≡ max_parameters
  pub count_le : s.parameter_count ≤ max_parameters
  pub values : All IsParameter s.parameters

-- What is left to read fits the bits that are left, so the shifts lose none.
pub record Utf8Fits (p : VtParser) : Type 0 where
  pub three : p.utf8_remaining ≡ 3 → p.utf8_code_point < 8
  pub two : p.utf8_remaining ≡ 2 → p.utf8_code_point < 512
  pub one : p.utf8_remaining ≡ 1 → p.utf8_code_point < 32768
  pub remaining_le : p.utf8_remaining ≤ 3

-- An OSC payload exists only while its string is collected or its terminator is awaited.
pub record OscFits (p : VtParser) : Type 0 where
  pub payload_le : length p.osc_payload ≤ osc_limit
  pub pending : p.osc_terminator_pending ≡ true → p.state ≡ escape
  pub payload_owned :
      (p.osc_payload ≡ []) ⊎ (p.state ≡ osc_string) ⊎ (p.osc_terminator_pending ≡ true)

pub record IsValid (p : VtParser) : Type 0 where
  pub sequence_fits : SequenceFits p.sequence
  pub started : p.parameter_started ≡ true → 0 < p.sequence.parameter_count
  pub utf8_fits : Utf8Fits p
  pub osc_fits : OscFits p

-- A Unicode scalar value.
abbrev pub IsScalar : ℕ → Type 0
IsScalar c = (c ≤ 0x10FFFF) × ((c < 0xD800) ⊎ (0xDFFF < c))

-- What a handler may rely on at each of its calls.
abbrev pub IsSafe : Event → Type 0
IsSafe (print c) = IsScalar c
IsSafe (execute c) = c < 0x20
IsSafe (csi_dispatch s) = SequenceFits s
IsSafe (esc_dispatch s) = Unit
IsSafe (osc_dispatch payload) = length payload ≤ osc_limit
IsSafe (dcs_hook s) = SequenceFits s
IsSafe (dcs_put c) = c < 256
IsSafe dcs_unhook = Unit

-- Neither a payload nor a terminator is pending: every state but those of an OSC.
pub record IsCalm (p : VtParser) : Type 0 where
  pub sequence_fits : SequenceFits p.sequence
  pub started : p.parameter_started ≡ true → 0 < p.sequence.parameter_count
  pub utf8_fits : Utf8Fits p
  pub no_payload : p.osc_payload ≡ []
  pub no_terminator : p.osc_terminator_pending ≡ false

abbrev pub Calmly : Outcome → Type 0
Calmly (p, events) = IsCalm p × All IsSafe events

abbrev pub Holds : Outcome → Type 0
Holds (p, events) = IsValid p × All IsSafe events

omit_parameter-SequenceFits :
    (b : Bool) (s : CsiSequence) → SequenceFits s → SequenceFits (omit_parameter b s)
unfolding omit_parameter
omit_parameter-SequenceFits b s h = ground (
  arith,
  length-set s.parameters s.parameter_count (negsuc 0),
  All-set IsParameter s.parameters s.parameter_count (negsuc 0) refl h.values,
)

count_sub_parameter-SequenceFits :
    (byte : ℕ) (s : CsiSequence) → SequenceFits s → SequenceFits (count_sub_parameter byte s)
unfolding count_sub_parameter
count_sub_parameter-SequenceFits byte s h = grind (arith, length-set)

append_digit-IsParameter :
    (v : ℤ) (digit : ℕ) → digit ≤ 9 → IsParameter v → IsParameter (append_digit v digit)
unfolding append_digit
append_digit-IsParameter (pos v) digit le h = ground arith
append_digit-IsParameter (negsuc n) digit le h = omega arith

open_parameter-SequenceFits :
    (b : Bool) (s : CsiSequence)
    → SequenceFits s
    → s.parameter_count < max_parameters
    → SequenceFits (open_parameter b s)
unfolding open_parameter
open_parameter-SequenceFits true s h lt = h
open_parameter-SequenceFits false s h lt = record {
  parameters_size =
      omega (arith, h.parameters_size, length-set s.parameters s.parameter_count (pos 0));
  sub_parameters_size = h.sub_parameters_size;
  count_le = omega arith;
  values = All-set IsParameter s.parameters s.parameter_count (pos 0) (omega arith) h.values;
}

open_parameter_count :
    (b : Bool) (s : CsiSequence)
    → (b ≡ true → 0 < s.parameter_count)
    → 0 < (open_parameter b s).parameter_count
unfolding open_parameter
open_parameter_count true s h = h refl
open_parameter_count false s h = omega arith

write_digit-SequenceFits :
    (digit : ℕ) (s : CsiSequence)
    → digit ≤ 9
    → 0 < s.parameter_count
    → SequenceFits s
    → SequenceFits (write_digit digit s)
unfolding write_digit
write_digit-SequenceFits digit s le lt h =
    let i = s.parameter_count - 1 in
    let old =
      All-get_or IsParameter s.parameters i (pos 0) h.values
        (omega (arith, h.count_le, h.parameters_size)) in
    record {
      parameters_size = omega (
        arith,
        h.parameters_size,
        length-set s.parameters i (append_digit (get_or s.parameters i (pos 0)) digit),
      );
      sub_parameters_size = h.sub_parameters_size;
      count_le = h.count_le;
      values =
          All-set IsParameter s.parameters i _ (append_digit-IsParameter _ digit le old) h.values;
    }

write_digit_count :
    (digit : ℕ) (s : CsiSequence) → (write_digit digit s).parameter_count ≡ s.parameter_count
unfolding write_digit
write_digit_count digit s = refl

pub collect_parameter-IsCalm :
    (p : VtParser) (byte : ℕ) → IsCalm p → IsCalm (collect_parameter p byte)
unfolding collect_parameter
collect_parameter-IsCalm p byte h = ground (
  arith,
  count_sub_parameter-SequenceFits byte _
      (omit_parameter-SequenceFits p.parameter_started p.sequence h.sequence_fits),
  write_digit-SequenceFits (byte - b'0') (open_parameter p.parameter_started p.sequence),
  open_parameter-SequenceFits p.parameter_started p.sequence h.sequence_fits,
  open_parameter_count p.parameter_started p.sequence h.started,
  write_digit_count (byte - b'0') (open_parameter p.parameter_started p.sequence),
)

pub collect_intermediate-IsCalm :
    (p : VtParser) (byte : ℕ) → IsCalm p → IsCalm (collect_intermediate p byte)
unfolding collect_intermediate
collect_intermediate-IsCalm p byte h = ground arith

checked-IsScalar : (minimum c : ℕ) → IsScalar (checked minimum c)
unfolding checked
checked-IsScalar minimum c = ground arith

decode_lead-Calmly :
    (p : VtParser) (byte : ℕ)
    → IsCalm p
    → p.utf8_remaining ≡ 0
    → byte < 256
    → Calmly (decode_lead p byte)
unfolding decode_lead
decode_lead-Calmly p byte h e lt = ground arith

decode_continuation-Calmly :
    (p : VtParser) (byte : ℕ)
    → IsCalm p
    → p.utf8_remaining ≢ 0
    → Calmly (decode_continuation p byte)
unfolding decode_continuation
decode_continuation-Calmly p byte h e =
    ground (arith, checked-IsScalar p.utf8_minimum (shift_in p.utf8_code_point byte))

restart-Calmly : (p : VtParser) (byte : ℕ) → IsCalm p → byte < 256 → Calmly (restart p byte)
unfolding restart
restart-Calmly p byte h lt =
    let again : Calmly (decode_lead (record p { utf8_remaining = 0 }) byte) =
      decode_lead-Calmly (record p { utf8_remaining = 0 }) byte (ground arith) refl lt in
    ground (arith, again)

pub decode_utf8-Calmly :
    (p : VtParser) (byte : ℕ) → IsCalm p → byte < 256 → Calmly (decode_utf8 p byte)
unfolding decode_utf8
decode_utf8-Calmly p byte h lt = ground (
  arith,
  decode_lead-Calmly p byte h,
  decode_continuation-Calmly p byte h,
  restart-Calmly p byte h lt,
)
