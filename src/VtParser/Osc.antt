-- ===== src/VtParser/Osc.antt =====
-- Operating system commands: what is collected, how it ends, and what cuts it short.
use mathlib.Core.List.{append_assoc, append-nil}
use ar_term.Prelude.{
  ℕ, zero, suc, ◌+◌, ◌/◌, ◌%◌, ◌≤◌, ◌<◌, ◌≡◌, ◌≢◌, refl, ap, ◌∙◌, false, ◌⊎◌, inl, List, [], ◌∷◌,
  ◌++◌, arith, length, length-append, take, take_all, All, All-append,
}
use ar_term.VtParser.{
  print, osc_dispatch, ground as ground_state, osc_string, VtParser, is_c0, is_intermediate,
  clear_sequence, decode_utf8, decode_lead, replacement_character,
}
use ar_term.VtParser.Machine.{
  advance, parse, in_state, in_escape, in_osc_string, finish_osc, on_escape, on_cancel,
  after_osc_escape, unhook, osc_limit,
}
use ar_term.VtParser.Utf8.{encode, advance_text}
use ar_term.VtParser.Runs.{parse-append, parse_prefix}

-- Collecting a payload.
abbrev pub collecting : List ℕ → VtParser → VtParser
collecting payload p = record p {
  state = osc_string;
  osc_payload = payload;
  osc_terminator_pending = false;
}

-- A byte that an OSC string keeps.
abbrev IsOscByte : ℕ → Type 0
IsOscByte byte = ((0x20 ≤ byte) ⊎ (byte ≡ 0x09)) × (byte ≢ 0x9C)

advance_osc :
    (acc : List ℕ) (p : VtParser) (byte : ℕ)
    → IsOscByte byte
    → length acc < osc_limit
    → advance (collecting acc p) byte ≡ (collecting (acc ++ byte ∷ []) p, [])
unfolding advance in_state in_osc_string
advance_osc acc p byte h lt = ground arith

advance_full :
    (acc : List ℕ) (p : VtParser) (byte : ℕ)
    → IsOscByte byte
    → osc_limit ≤ length acc
    → advance (collecting acc p) byte ≡ (collecting acc p, [])
unfolding advance in_state in_osc_string
advance_full acc p byte h le = ground arith

parse_full :
    (acc : List ℕ) (p : VtParser) (bytes : List ℕ)
    → All IsOscByte bytes
    → osc_limit ≤ length acc
    → parse (collecting acc p) bytes ≡ (collecting acc p, [])
unfolding parse
parse_full acc p [] h le = refl
parse_full acc p (byte ∷ bytes) h le =
    rw (advance_full acc p byte h.0 le, parse_full acc p bytes h.1 le)

-- Up to `room` more bytes are kept, and the others are dropped.
parse_payload :
    (room : ℕ) (acc : List ℕ) (p : VtParser) (bytes : List ℕ)
    → All IsOscByte bytes
    → length acc + room ≡ osc_limit
    → parse (collecting acc p) bytes ≡ (collecting (acc ++ take room bytes) p, [])
unfolding parse
parse_payload zero acc p bytes h e = rw (append-nil acc) (parse_full acc p bytes h (omega arith))
parse_payload (suc room) acc p [] h e = rw (append-nil acc)
parse_payload (suc room) acc p (byte ∷ bytes) h e = rw (
  advance_osc acc p byte h.0 (omega arith),
  parse_payload room (acc ++ byte ∷ []) p bytes h.1 (omega (arith, length-append acc (byte ∷ []))),
  append_assoc acc (byte ∷ []) (take room bytes),
)

open_osc :
    (p : VtParser) → parse p (0x1B ∷ b']' ∷ []) ≡ (collecting [] (clear_sequence p), unhook p.state)
unfolding parse advance on_escape after_osc_escape in_state in_escape clear_sequence is_c0
    is_intermediate
open_osc p = ground (arith, append-nil (unhook p.state))

-- The three terminators: BEL, the 8-bit ST and "ESC \".
pub data IsTerminator : List ℕ → Type 0 where
  bel : IsTerminator (0x07 ∷ [])
  st : IsTerminator (0x9C ∷ [])
  esc : IsTerminator (0x1B ∷ b'\\' ∷ [])

-- The parser after an OSC: in the ground state, with nothing pending.
pub record IsDone (p q : VtParser) : Type 0 where
  pub in_ground_state : q.state ≡ ground_state
  pub no_payload : q.osc_payload ≡ []
  pub no_terminator : q.osc_terminator_pending ≡ false
  pub same_character : q.utf8_remaining ≡ p.utf8_remaining

close_osc :
    (payload : List ℕ) (p : VtParser) (end : List ℕ)
    → IsTerminator end
    → (parse (collecting payload p) end).1 ≡ osc_dispatch payload ∷ []
      × IsDone p (parse (collecting payload p) end).0
unfolding parse advance on_escape after_osc_escape in_state in_osc_string finish_osc clear_sequence
close_osc payload p _ bel = (refl, ground arith)
close_osc payload p _ st = (refl, ground arith)
close_osc payload p _ esc = (refl, ground arith)

-- From any state, ESC ] with payload bytes (0x20 and above or a tab, but not 0x9C) and a
-- terminator dispatches one OSC with the payload, cut at 1 MiB, and the parser is in its ground
-- state with no payload and no terminator pending; a character that was half read stays half read.
-- The only other call is the end of a device control string that was in progress.
pub parse-osc :
    (p : VtParser) (payload end : List ℕ)
    → All IsOscByte payload
    → IsTerminator end
    → let o = parse p ((0x1B ∷ b']' ∷ []) ++ (payload ++ end)) in
      (o.1 ≡ unhook p.state ++ osc_dispatch (take osc_limit payload) ∷ []) × IsDone p o.0
unfolding clear_sequence
parse-osc p payload end h t =
    let q = clear_sequence p in
    let start =
      parse_prefix p (collecting [] q) (0x1B ∷ b']' ∷ []) (payload ++ end) (unhook p.state)
        (open_osc p) in
    let kept = take osc_limit payload in
    let body =
      parse_prefix (collecting [] q) (collecting kept q) payload end []
        (parse_payload osc_limit [] q payload h refl) in
    let (close, done) = close_osc kept q end t in
    (
      rw (start, body, close),
      rw (start, body)
          (record {
            in_ground_state = done.in_ground_state;
            no_payload = done.no_payload;
            no_terminator = done.no_terminator;
            same_character = done.same_character;
          }),
    )

-- An OSC interrupted by ESC and a byte other than the backslash is abandoned: no OSC is
-- dispatched, its payload is gone, and the byte is read as the second byte of an escape sequence
-- exactly as it would be after an ESC received in the ground state.
pub abandon-osc :
    (p : VtParser) (payload : List ℕ) (byte : ℕ)
    → byte ≢ b'\\'
    → parse (collecting payload p) (0x1B ∷ byte ∷ [])
      ≡ parse (record (collecting [] p) { state = ground_state }) (0x1B ∷ byte ∷ [])
unfolding parse advance on_escape after_osc_escape on_cancel clear_sequence
abandon-osc p payload byte ne = ground arith

-- A continuation byte alone, in the ground state.
parse_stray :
    (q : VtParser) (d : ℕ)
    → q.state ≡ ground_state
    → q.osc_terminator_pending ≡ false
    → q.utf8_remaining ≡ 0
    → d < 64
    → (parse q ((0x80 + d) ∷ [])).1 ≡ print replacement_character ∷ []
unfolding parse decode_utf8 decode_lead
parse_stray q d e n done lt = rw (advance_text q (0x80 + d) e n (omega arith)) (ground arith)

encode_three :
    (c : ℕ)
    → 0x800 ≤ c
    → c < 0x10000
    → encode c ≡ (0xE0 + c / 4096) ∷ (0x80 + c / 64 % 64) ∷ (0x80 + c % 64) ∷ []
unfolding encode
encode_three c le lt = ground arith

-- A character of three bytes whose second byte is 0x9C, such as U+672C, ends the OSC that it
-- stands in: what came before is dispatched with only the character's first byte, and its last
-- byte is printed on the screen as U+FFFD.
pub osc-cut_by_character :
    (p : VtParser) (before : List ℕ) (c : ℕ)
    → All IsOscByte before
    → length before < osc_limit
    → 0x800 ≤ c
    → c < 0x10000
    → c / 64 % 64 ≡ 0x1C
    → p.utf8_remaining ≡ 0
    → (parse p ((0x1B ∷ b']' ∷ []) ++ (before ++ encode c))).1
      ≡ unhook p.state
        ++ (osc_dispatch (before ++ (0xE0 + c / 4096) ∷ []) ∷ print replacement_character ∷ [])
osc-cut_by_character p before c h lt le small cut none =
    let lead = 0xE0 + c / 4096 in
    let last = 0x80 + c % 64 in
    let payload = before ++ lead ∷ [] in
    let kept = All-append IsOscByte before (lead ∷ []) h ((inl (omega arith), omega arith), tt) in
    let size : length payload ≤ osc_limit = omega (arith, length-append before (lead ∷ [])) in
    let opened = (0x1B ∷ b']' ∷ []) ++ (payload ++ 0x9C ∷ []) in
    let (events, done) = parse-osc p payload (0x9C ∷ []) kept st in
    let idle : (parse p opened).0.utf8_remaining ≡ 0 = done.same_character ∙ none in
    let bytes : (0x1B ∷ b']' ∷ []) ++ (before ++ encode c) ≡ opened ++ last ∷ [] =
      rw (encode_three c le small, cut) (simp append_assoc) in
    let stray =
      parse_stray (parse p opened).0 (c % 64) done.in_ground_state done.no_terminator idle
        (omega arith) in
    ap (λ o. (parse p o).1) bytes
    ∙ ap (λ o. o.1) (parse-append p opened (last ∷ []))
    ∙ ap (λ o. o ++ (parse (parse p opened).0 (last ∷ [])).1) events
    ∙ rw (stray, take_all osc_limit payload size)
        (append_assoc (unhook p.state) (osc_dispatch payload ∷ [])
          (print replacement_character ∷ []))
