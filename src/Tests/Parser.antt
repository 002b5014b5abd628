-- ===== src/Tests/Parser.antt =====
-- The theorems on src/terminal/VtParser.cpp at concrete streams.
use ar_term.Prelude.{
  ℕ, ◌+◌, ◌*◌, ◌/◌, ◌≡◌, refl, true, false, inr, List, [], ◌∷◌, ◌++◌, map, Option, none, some,
  arith, take,
}
use ar_term.Prelude.Int.{pos}
use mathlib.Core.List.{flat_map}
use ar_term.VtParser.{
  print, csi_dispatch, osc_dispatch, csi_param, ground as ground_state, VtParser, initial, is_final,
  replacement_character, CsiSequence, checked,
}
use ar_term.VtParser.Machine.{parse, unhook, advance, osc_limit}
use ar_term.VtParser.Invariant.{Holds}
use ar_term.VtParser.Safety.{initial-IsValid, parse-Holds}
use ar_term.VtParser.Discipline.{check, is_passthrough, parse-check}
use ar_term.VtParser.Numbers.{push, at, last_slot_truncated}
use ar_term.VtParser.Csi.{sequence_of, render, to_parameter, parse-csi}
use ar_term.VtParser.Utf8.{encode, Decodes, IsReady, parse-encode_text, advance_truncated}
use ar_term.VtParser.Osc.{collecting, bel, IsDone, parse-osc, abandon-osc, osc-cut_by_character}
use ar_term.VtParser.Recovery.{cancel_mark, cancel-text, cancel-keeps_character}

-- ESC [ ? 1049 ; ; 25 h
abbrev modes : List (Option ℕ)
modes = some 1049 ∷ none ∷ []

parse-csi_example :
    let sent = record (sequence_of 0x3F (map to_parameter modes ++ pos 25 ∷ [])) { final = b'h' } in
    let o = parse initial ((0x1B ∷ b'[' ∷ 0x3F ∷ []) ++ (render modes 25 ++ b'h' ∷ [])) in
    (o.1 ≡ unhook initial.state ++ csi_dispatch sent ∷ []) × (o.0.state ≡ ground_state)
unfolding is_final
parse-csi_example =
    parse-csi initial (some 0x3F) modes 25 b'h' (omega arith, omega arith) (omega arith)
      (omega arith, (tt, tt)) (omega arith) refl

-- é, 本 and an emoji
abbrev text : List ℕ
text = 0xE9 ∷ 0x672C ∷ 0x1F600 ∷ []

initial-IsReady : IsReady initial
initial-IsReady = record { in_ground_state = refl; no_terminator = refl; complete = refl }

parse-encode_text_example : Decodes initial (flat_map encode text) text
parse-encode_text_example = parse-encode_text initial text initial-IsReady (ground arith)

-- A device control string with sixel data, cut by ESC.
abbrev sixel : List ℕ
sixel = 0x1B ∷ b'P' ∷ b'1' ∷ b'q' ∷ b'~' ∷ 0x1B ∷ b'\\' ∷ 0xC3 ∷ []

parse-Holds_example : Holds (parse initial sixel)
parse-Holds_example = parse-Holds initial sixel (ground arith) initial-IsValid

parse-check_example :
    check (is_passthrough initial.state) (parse initial sixel).1
    ≡ some (is_passthrough (parse initial sixel).0.state)
parse-check_example = parse-check initial sixel (ground arith) initial-IsValid

abbrev title : List ℕ
title = b'0' ∷ b';' ∷ b'a' ∷ b'b' ∷ []

parse-osc_example :
    let o = parse initial ((0x1B ∷ b']' ∷ []) ++ (title ++ 0x07 ∷ [])) in
    (o.1 ≡ unhook initial.state ++ osc_dispatch (take osc_limit title) ∷ []) × IsDone initial o.0
parse-osc_example = parse-osc initial title (0x07 ∷ []) (ground arith) bel

abandon-osc_example :
    parse (collecting title initial) (0x1B ∷ b'c' ∷ [])
    ≡ parse (record (collecting [] initial) { state = ground_state }) (0x1B ∷ b'c' ∷ [])
abandon-osc_example = abandon-osc initial title b'c' (omega arith)

osc-cut_by_character_example :
    (parse initial ((0x1B ∷ b']' ∷ []) ++ (title ++ encode 0x672C))).1
    ≡ unhook initial.state
      ++ (osc_dispatch (title ++ (0xE0 + 0x672C / 4096) ∷ []) ∷ print replacement_character ∷ [])
osc-cut_by_character_example =
    osc-cut_by_character initial title 0x672C (ground arith) (omega arith) (omega arith)
      (omega arith) refl refl

-- The first byte of é has arrived.
abbrev half : VtParser
half = record initial { utf8_code_point = 3; utf8_remaining = 1; utf8_minimum = 0x80 }

advance_truncated_example : advance half b'a' ≡ (
  (advance (record half { utf8_remaining = 0 }) b'a').0,
  print replacement_character ∷ (advance (record half { utf8_remaining = 0 }) b'a').1,
)
advance_truncated_example =
    advance_truncated half b'a' refl refl (omega arith) (omega arith) (omega arith)

cancel-keeps_character_example :
    (parse half (0x18 ∷ (0x80 + 0x29) ∷ [])).1 ≡ print (checked 0x80 (3 * 64 + 0x29)) ∷ []
cancel-keeps_character_example =
    cancel-keeps_character half 0x29 refl refl (omega arith) (omega arith)

abbrev full_sequence : CsiSequence
full_sequence = sequence_of 0 (
    map (λ (n : ℕ). pos n)
      (1 ∷ 1 ∷ 1 ∷ 1 ∷ 1 ∷ 1 ∷ 1 ∷ 1 ∷ 1 ∷ 1 ∷ 1 ∷ 1 ∷ 1 ∷ 1 ∷ 1 ∷ 1 ∷ 1 ∷ 1 ∷ 1 ∷ 1 ∷ 1 ∷ 1 ∷ 1 ∷ 1
        ∷ 1 ∷ 1 ∷ 1 ∷ 1 ∷ 1 ∷ 1 ∷ 1 ∷ []))

last_slot_truncated_example :
    parse (at csi_param full_sequence false initial) ((b'0' + 2) ∷ (b'0' + 5) ∷ [])
    ≡ (at csi_param (push full_sequence (pos 2)) true initial, [])
last_slot_truncated_example =
    last_slot_truncated full_sequence initial csi_param 2 5 (inr refl) refl refl (omega arith)
      (omega arith)

cancel-text_example :
    (parse (collecting title initial) ((0x1A ∷ []) ++ flat_map encode text)).1
    ≡ (unhook (collecting title initial).state ++ cancel_mark 0x1A) ++ map print text
cancel-text_example =
    cancel-text (collecting title initial) 0x1A text (inr refl) refl (ground arith)
