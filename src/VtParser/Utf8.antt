-- ===== src/VtParser/Utf8.antt =====
-- The UTF-8 decoder of `VtParser::decodeUtf8` against the encoding of RFC 3629.
use mathlib.Core.List.{flat_map}
use ar_term.Prelude.{
  ℕ, ◌+◌, ◌*◌, ◌-◌, ◌/◌, ◌%◌, ◌≤◌, ◌<◌, ◌≡◌, ◌≢◌, refl, ap, ◌∙◌, false, List, [], ◌∷◌, map, inl,
  inr, arith, ltb, ltb→lt, if◌then◌else◌, All, Bool-cases,
}
use ar_term.VtParser.{
  print, ground as ground_state, VtParser, is_c0, decode_utf8, decode_lead, decode_continuation,
  restart, checked, replacement_character,
}
use ar_term.VtParser.Machine.{advance, parse, in_state, in_ground}
use ar_term.VtParser.Runs.{parse_prefix}
use ar_term.VtParser.Invariant.{IsScalar}

-- The encoding, from the standard and not from the program.
unfoldable pub encode : ℕ → List ℕ
encode c =
    if ltb c 0x80
    then c ∷ []
    else if ltb c 0x800
    then (0xC0 + c / 64) ∷ (0x80 + c % 64) ∷ []
    else if ltb c 0x10000
    then (0xE0 + c / 4096) ∷ (0x80 + c / 64 % 64) ∷ (0x80 + c % 64) ∷ []
    else (0xF0 + c / 262144) ∷ (0x80 + c / 4096 % 64) ∷ (0x80 + c / 64 % 64) ∷ (0x80 + c % 64) ∷ []

-- In the ground state, with no character in progress.
pub record IsReady (p : VtParser) : Type 0 where
  pub in_ground_state : p.state ≡ ground_state
  pub no_terminator : p.osc_terminator_pending ≡ false
  pub complete : p.utf8_remaining ≡ 0

pub advance_text :
    (p : VtParser) (byte : ℕ)
    → p.state ≡ ground_state
    → p.osc_terminator_pending ≡ false
    → 0x20 ≤ byte
    → advance p byte ≡ decode_utf8 p byte
unfolding advance in_state in_ground is_c0
advance_text p byte e n le = ground arith

module _ (p : VtParser) (e : p.state ≡ ground_state) (n : p.osc_terminator_pending ≡ false) where
  -- A continuation byte that is not the last.
  continue_more :
      (d : ℕ)
      → d < 64
      → 1 < p.utf8_remaining
      → p.utf8_code_point < 32768
      → advance p (0x80 + d) ≡ (
        record p {
          utf8_code_point = p.utf8_code_point * 64 + d;
          utf8_remaining = p.utf8_remaining - 1;
        },
        [],
      )
  unfolding decode_utf8 decode_continuation
  continue_more d lt more small = advance_text p (0x80 + d) e n (omega arith) ∙ ground arith

  pub continue_last :
      (d : ℕ)
      → d < 64
      → p.utf8_remaining ≡ 1
      → p.utf8_code_point < 32768
      → advance p (0x80 + d) ≡ (
        record p { utf8_code_point = 0; utf8_remaining = 0 },
        print (checked p.utf8_minimum (p.utf8_code_point * 64 + d)) ∷ [],
      )
  unfolding decode_utf8 decode_continuation
  continue_last d lt last small = advance_text p (0x80 + d) e n (omega arith) ∙ ground arith

  begin_two :
      (d : ℕ)
      → d < 32
      → p.utf8_remaining ≡ 0
      → advance p (0xC0 + d)
        ≡ (record p { utf8_code_point = d; utf8_remaining = 1; utf8_minimum = 0x80 }, [])
  unfolding decode_utf8 decode_lead
  begin_two d lt done = advance_text p (0xC0 + d) e n (omega arith) ∙ ground arith

  begin_three :
      (d : ℕ)
      → d < 16
      → p.utf8_remaining ≡ 0
      → advance p (0xE0 + d)
        ≡ (record p { utf8_code_point = d; utf8_remaining = 2; utf8_minimum = 0x800 }, [])
  unfolding decode_utf8 decode_lead
  begin_three d lt done = advance_text p (0xE0 + d) e n (omega arith) ∙ ground arith

  begin_four :
      (d : ℕ)
      → d < 8
      → p.utf8_remaining ≡ 0
      → advance p (0xF0 + d)
        ≡ (record p { utf8_code_point = d; utf8_remaining = 3; utf8_minimum = 0x10000 }, [])
  unfolding decode_utf8 decode_lead
  begin_four d lt done = advance_text p (0xF0 + d) e n (omega arith) ∙ ground arith

abbrev pub Decodes : VtParser → List ℕ → List ℕ → Type 0
Decodes p bytes text = (q : VtParser) × (parse p bytes ≡ (q, map print text)) × IsReady q

module _ (p : VtParser) (ready : IsReady p) where
  decode_one : (c : ℕ) → 0x20 ≤ c → c < 0x80 → Decodes p (c ∷ []) (c ∷ [])
  unfolding parse decode_utf8 decode_lead
  decode_one c le lt =
      (p, rw (advance_text p c ready.in_ground_state ready.no_terminator le) (ground arith), ready)

  checked_eq : (minimum c : ℕ) → minimum ≤ c → IsScalar c → checked minimum c ≡ c
  unfolding checked
  checked_eq minimum c le s = ground arith

  decode_two :
      (c : ℕ)
      → IsScalar c
      → 0x80 ≤ c
      → c < 0x800
      → Decodes p ((0xC0 + c / 64) ∷ (0x80 + c % 64) ∷ []) (c ∷ [])
  unfolding parse
  decode_two c s le lt =
      let q = record p { utf8_code_point = c / 64; utf8_remaining = 1; utf8_minimum = 0x80 } in
      let e = ready.in_ground_state in
      let n = ready.no_terminator in
      let joined : c / 64 * 64 + c % 64 ≡ c = omega arith in
      (
        record q { utf8_code_point = 0; utf8_remaining = 0 },
        rw (
          begin_two p e n (c / 64) (omega arith) ready.complete,
          continue_last q e n (c % 64) (omega arith) refl (omega arith),
          joined,
          checked_eq 0x80 c le s,
        ),
        record { in_ground_state = e; no_terminator = n; complete = refl },
      )

  decode_three :
      (c : ℕ)
      → IsScalar c
      → 0x800 ≤ c
      → c < 0x10000
      → Decodes p ((0xE0 + c / 4096) ∷ (0x80 + c / 64 % 64) ∷ (0x80 + c % 64) ∷ []) (c ∷ [])
  unfolding parse
  decode_three c s le lt =
      let q = record p { utf8_code_point = c / 4096; utf8_remaining = 2; utf8_minimum = 0x800 } in
      let r = record q { utf8_code_point = c / 4096 * 64 + c / 64 % 64; utf8_remaining = 1 } in
      let e = ready.in_ground_state in
      let n = ready.no_terminator in
      let joined : (c / 4096 * 64 + c / 64 % 64) * 64 + c % 64 ≡ c = omega arith in
      (
        record r { utf8_code_point = 0; utf8_remaining = 0 },
        rw (
          begin_three p e n (c / 4096) (omega arith) ready.complete,
          continue_more q e n (c / 64 % 64) (omega arith) (omega arith) (omega arith),
          continue_last r e n (c % 64) (omega arith) refl (omega arith),
          joined,
          checked_eq 0x800 c le s,
        ),
        record { in_ground_state = e; no_terminator = n; complete = refl },
      )

  decode_four :
      (c : ℕ)
      → IsScalar c
      → 0x10000 ≤ c
      → Decodes p
          ((0xF0 + c / 262144)
            ∷ (0x80 + c / 4096 % 64)
            ∷ (0x80 + c / 64 % 64)
            ∷ (0x80 + c % 64)
            ∷ [])
          (c ∷ [])
  unfolding parse
  decode_four c s le =
      let q = record p {
        utf8_code_point = c / 262144;
        utf8_remaining = 3;
        utf8_minimum = 0x10000;
      } in
      let r = record q { utf8_code_point = c / 262144 * 64 + c / 4096 % 64; utf8_remaining = 2 } in
      let t = record r {
        utf8_code_point = (c / 262144 * 64 + c / 4096 % 64) * 64 + c / 64 % 64;
        utf8_remaining = 1;
      } in
      let e = ready.in_ground_state in
      let n = ready.no_terminator in
      let joined : ((c / 262144 * 64 + c / 4096 % 64) * 64 + c / 64 % 64) * 64 + c % 64 ≡ c =
        omega arith in
      (
        record t { utf8_code_point = 0; utf8_remaining = 0 },
        rw (
          begin_four p e n (c / 262144) (omega arith) ready.complete,
          continue_more q e n (c / 4096 % 64) (omega arith) (omega arith) (omega arith),
          continue_more r e n (c / 64 % 64) (omega arith) (omega arith) (omega arith),
          continue_last t e n (c % 64) (omega arith) refl (omega arith),
          joined,
          checked_eq 0x10000 c le s,
        ),
        record { in_ground_state = e; no_terminator = n; complete = refl },
      )

  -- One character, of one to four bytes.
  pub parse-encode : (c : ℕ) → 0x20 ≤ c → IsScalar c → Decodes p (encode c) (c ∷ [])
  unfolding encode
  parse-encode c le s = elim (Bool-cases (ltb c 0x80)) [
    | inl one ↦ rw one (decode_one c le (ltb→lt c 0x80 one))
    | inr more ↦ rw more (elim (Bool-cases (ltb c 0x800)) [
      | inl two ↦ rw two (decode_two c s (ground arith) (ltb→lt c 0x800 two))
      | inr many ↦ rw many (elim (Bool-cases (ltb c 0x10000)) [
        | inl three ↦ rw three (decode_three c s (ground arith) (ltb→lt c 0x10000 three))
        | inr four ↦ rw four (decode_four c s (ground arith))
      ])
    ])
  ]

abbrev pub IsText : ℕ → Type 0
IsText c = (0x20 ≤ c) × IsScalar c

-- A text in UTF-8, received in the ground state, is printed character by character.
pub parse-encode_text :
    (p : VtParser) (text : List ℕ)
    → IsReady p
    → All IsText text
    → Decodes p (flat_map encode text) text
unfolding parse flat_map
parse-encode_text p [] ready s = (p, refl, ready)
parse-encode_text p (c ∷ text) ready s =
    let (q, e, q_ready) = parse-encode p ready c s.0.0 s.0.1 in
    let (r, e', r_ready) = parse-encode_text q text q_ready s.1 in
    (
      r,
      parse_prefix p q (encode c) (flat_map encode text) (print c ∷ []) e
          ∙ ap (λ o. (o.0, print c ∷ o.1)) e',
      r_ready,
    )

-- A byte of text that does not continue the character in progress: the character is given up with
-- exactly one U+FFFD, and the byte is read as by a parser with no character in progress.
pub advance_truncated :
    (p : VtParser) (byte : ℕ)
    → p.state ≡ ground_state
    → p.osc_terminator_pending ≡ false
    → p.utf8_remaining ≢ 0
    → 0x20 ≤ byte
    → byte / 64 ≢ 2
    → advance p byte ≡ (
      (advance (record p { utf8_remaining = 0 }) byte).0,
      print replacement_character ∷ (advance (record p { utf8_remaining = 0 }) byte).1,
    )
unfolding decode_utf8 restart
advance_truncated p byte e n progress le other =
    rw (advance_text (record p { utf8_remaining = 0 }) byte e n le)
      (advance_text p byte e n le ∙ ground arith)
