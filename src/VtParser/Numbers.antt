-- ===== src/VtParser/Numbers.antt =====
-- The parameters of a control sequence, as `collectParameter` gathers them digit by digit.
use ar_term.Prelude.{
  ℕ, zero, suc, ◌+◌, ◌*◌, ◌-◌, ◌/◌, ◌%◌, ◌≤◌, ◌<◌, ◌≡◌, refl, ap, ◌∙◌, Bool, true, false, ◌⊎◌, inl,
  inr, List, [], ◌∷◌, ◌++◌, arith, ltb, if◌then◌else◌, length, get_or, set, Bool-cases,
}
use ar_term.Prelude.Int.{ℤ, pos, negsuc}
use ar_term.VtParser.{
  CsiSequence, State, csi_entry, csi_param, VtParser, max_parameters, is_c0, is_parameter,
  is_private_marker, collect_parameter, omit_parameter, count_sub_parameter, append_digit,
  open_parameter, write_digit,
}
use ar_term.VtParser.Machine.{advance, parse, in_state, in_csi_entry, in_csi_param}
use ar_term.VtParser.Runs.{parse_prefix}

module _ {ℓ} {A : Type ℓ} where
  set-set : (xs : List A) (i : ℕ) (v w : A) → set (set xs i v) i w ≡ set xs i w
  set-set [] i v w = refl
  set-set (x ∷ xs) zero v w = refl
  set-set (x ∷ xs) (suc i) v w = ap (x ∷◌) (set-set xs i v w)

  get_or-set : (xs : List A) (i : ℕ) (v d : A) → i < length xs → get_or (set xs i v) i d ≡ v
  get_or-set [] i v d h = absurd (omega arith)
  get_or-set (x ∷ xs) zero v d h = refl
  get_or-set (x ∷ xs) (suc i) v d h = get_or-set xs i v d (omega arith)

-- One more parameter.
abbrev pub push : CsiSequence → ℤ → CsiSequence
push s v = record s {
  parameters = set s.parameters s.parameter_count v;
  parameter_count = s.parameter_count + 1;
}

write_digit-push :
    (s : CsiSequence) (v : ℤ) (d : ℕ)
    → s.parameter_count < length s.parameters
    → write_digit d (push s v) ≡ push s (append_digit v d)
unfolding write_digit
write_digit-push s v d lt =
    let i = s.parameter_count in
    let here : i + 1 - 1 ≡ i = omega arith in
    rw (here, get_or-set s.parameters i v (pos 0) lt, set-set s.parameters i v (append_digit v d))

-- The parser inside the parameters of a sequence.
abbrev pub at : State → CsiSequence → Bool → VtParser → VtParser
at st s started p = record p {
  state = st;
  sequence = s;
  parameter_started = started;
  osc_terminator_pending = false;
}

abbrev pub IsInside : State → Type 0
IsInside st = (st ≡ csi_entry) ⊎ (st ≡ csi_param)

pub collect_parameter-state : (p : VtParser) (byte : ℕ) → (collect_parameter p byte).state ≡ p.state
unfolding collect_parameter
collect_parameter-state p byte = ground arith

advance_parameter :
    (st : State) (s : CsiSequence) (b : Bool) (p : VtParser) (byte : ℕ)
    → IsInside st
    → 0x30 ≤ byte
    → byte < 0x3C
    → advance (at st s b p) byte
      ≡ (record (collect_parameter (at st s b p) byte) { state = csi_param }, [])
unfolding advance in_state in_csi_entry in_csi_param is_c0 is_parameter is_private_marker
advance_parameter st s b p byte (inl e) le lt = rw e (ground arith)
advance_parameter st s b p byte (inr e) le lt =
    rw e (ground (arith, collect_parameter-state (at csi_param s b p) byte))

module _ (s : CsiSequence) (p : VtParser) where
  -- The first digit opens a slot.
  first_digit :
      (st : State) (d : ℕ)
      → IsInside st
      → d ≤ 9
      → s.parameter_count < max_parameters
      → length s.parameters ≡ max_parameters
      → advance (at st s false p) (b'0' + d) ≡ (at csi_param (push s (pos d)) true p, [])
  unfolding collect_parameter open_parameter append_digit
  first_digit st d inside le lt size =
      advance_parameter st s false p (b'0' + d) inside (omega arith) (omega arith)
      ∙ ground (arith, write_digit-push s (pos 0) (b'0' + d - b'0') (omega arith))

  -- A further digit is appended, unless the clamp drops it.
  next_digit :
      (v d : ℕ)
      → d ≤ 9
      → s.parameter_count + 1 < max_parameters
      → length s.parameters ≡ max_parameters
      → v < 100000
      → advance (at csi_param (push s (pos v)) true p) (b'0' + d)
        ≡ (at csi_param (push s (pos (v * 10 + d))) true p, [])
  unfolding collect_parameter open_parameter append_digit
  next_digit v d le lt size small =
      advance_parameter csi_param (push s (pos v)) true p (b'0' + d) (inr refl) (omega arith)
        (omega arith)
      ∙ ground (arith, write_digit-push s (pos v) (b'0' + d - b'0') (omega arith))

  -- A separator closes the parameter before it.
  pub close_parameter :
      (v : ℤ)
      → advance (at csi_param (push s v) true p) b';' ≡ (at csi_param (push s v) false p, [])
  unfolding collect_parameter omit_parameter count_sub_parameter
  close_parameter v =
      advance_parameter csi_param (push s v) true p b';' (inr refl) (omega arith) (omega arith)

  -- A separator with no digit before it records an omitted parameter.
  pub omit_one :
      (st : State)
      → IsInside st
      → s.parameter_count < max_parameters
      → advance (at st s false p) b';' ≡ (at csi_param (push s (negsuc 0)) false p, [])
  unfolding collect_parameter omit_parameter count_sub_parameter
  omit_one st inside lt =
      advance_parameter st s false p b';' inside (omega arith) (omega arith) ∙ ground arith

-- The decimal digits of a number, most significant first; enough where `HasDigits` holds.
digits : ℕ → ℕ → List ℕ
digits zero n = (b'0' + n) ∷ []
digits (suc fuel) n =
    let more = digits fuel (n / 10) in
    if ltb n 10 then (b'0' + n) ∷ [] else more ++ (b'0' + n % 10) ∷ []

abbrev HasDigits : ℕ → ℕ → Type 0
HasDigits zero n = n < 10
HasDigits (suc fuel) n = HasDigits fuel (n / 10)

-- A number that is not negative and fits in an `int`: at most ten digits.
unfoldable pub decimal : ℕ → List ℕ
unfolding digits
decimal n = digits 9 n

parse-digits :
    (fuel : ℕ) (s : CsiSequence) (p : VtParser) (st : State) (n : ℕ)
    → IsInside st
    → s.parameter_count + 1 < max_parameters
    → length s.parameters ≡ max_parameters
    → HasDigits fuel n
    → n ≤ 999999
    → parse (at st s false p) (digits fuel n) ≡ (at csi_param (push s (pos n)) true p, [])
unfolding digits parse
parse-digits zero s p st n inside lt size small le =
    rw (first_digit s p st n inside (omega arith) (omega arith) size)
parse-digits (suc fuel) s p st n inside lt size small le = elim (Bool-cases (ltb n 10)) [
  | inl one ↦ rw (one, first_digit s p st n inside (ground arith) (omega arith) size)
  | inr more ↦
      let joined : n / 10 * 10 + n % 10 ≡ n = omega arith in
      let front = parse-digits fuel s p st (n / 10) inside lt size small (omega arith) in
      rw more (
        parse_prefix (at st s false p) (at csi_param (push s (pos (n / 10))) true p)
          (digits fuel (n / 10)) ((b'0' + n % 10) ∷ []) [] front
        ∙ rw (next_digit s p (n / 10) (n % 10) (omega arith) lt size (omega arith), joined))
]

-- The printed number, read back into the next slot.
pub parse-decimal :
    (s : CsiSequence) (p : VtParser) (st : State) (n : ℕ)
    → IsInside st
    → s.parameter_count + 1 < max_parameters
    → length s.parameters ≡ max_parameters
    → n ≤ 999999
    → parse (at st s false p) (decimal n) ≡ (at csi_param (push s (pos n)) true p, [])
unfolding decimal
parse-decimal s p st n inside lt size le = parse-digits 9 s p st n inside lt size (omega arith) le

-- In the last of the 32 slots only the first digit counts: the count is then 32, and the test
-- that guards against a 33rd parameter drops every further digit of the 32nd.
pub last_slot_truncated :
    (s : CsiSequence) (p : VtParser) (st : State) (d e : ℕ)
    → IsInside st
    → s.parameter_count ≡ 31
    → length s.parameters ≡ max_parameters
    → d ≤ 9
    → e ≤ 9
    → parse (at st s false p) ((b'0' + d) ∷ (b'0' + e) ∷ [])
      ≡ (at csi_param (push s (pos d)) true p, [])
unfolding parse collect_parameter
last_slot_truncated s p st d e inside full size d_le e_le =
    rw
      (
        first_digit s p st d inside d_le (omega arith) size,
        advance_parameter csi_param (push s (pos d)) true p (b'0' + e) (inr refl) (omega arith)
            (omega arith),
      )
      (ground arith)
