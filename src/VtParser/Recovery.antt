-- ===== src/VtParser/Recovery.antt =====
-- CAN and SUB: they end whatever is in progress, except a half-read character.
use mathlib.Core.List.{flat_map, append_assoc, append-nil}
use ar_term.Prelude.{
  ℕ, ◌+◌, ◌*◌, ◌<◌, ◌≡◌, ◌⊎◌, refl, false, inl, inr, List, [], ◌∷◌, ◌++◌, map, All, ◌==◌,
  if◌then◌else◌,
}
use ar_term.VtParser.{
  Event, print, ground as ground_state, VtParser, checked, replacement_character,
}
use ar_term.VtParser.Machine.{advance, parse, on_cancel, unhook}
use ar_term.VtParser.Runs.{parse_prefix}
use ar_term.VtParser.Utf8.{encode, IsReady, IsText, parse-encode_text, continue_last}

-- What a cancelling byte reports: SUB shows as U+FFFD, CAN does not show.
abbrev pub cancel_mark : ℕ → List Event
cancel_mark byte = if byte == 0x1A then print replacement_character ∷ [] else []

abbrev IsCancel : ℕ → Type 0
IsCancel byte = (byte ≡ 0x18) ⊎ (byte ≡ 0x1A)

cancel_run :
    (p : VtParser) (byte : ℕ)
    → IsCancel byte
    → parse p (byte ∷ []) ≡ (
      record p { osc_terminator_pending = false; osc_payload = []; state = ground_state },
      unhook p.state ++ cancel_mark byte,
    )
unfolding parse advance on_cancel
cancel_run p byte (inl e) = rw (e, append-nil (unhook p.state), append-nil (unhook p.state))
cancel_run p byte (inr e) =
    rw (e, append_assoc (unhook p.state) (print replacement_character ∷ []) [])

-- From any state in which no character is half read, inside any sequence or string, CAN or SUB
-- discards what was in progress, and the UTF-8 text that follows is printed in full.
pub cancel-text :
    (p : VtParser) (byte : ℕ) (text : List ℕ)
    → IsCancel byte
    → p.utf8_remaining ≡ 0
    → All IsText text
    → (parse p ((byte ∷ []) ++ flat_map encode text)).1
      ≡ (unhook p.state ++ cancel_mark byte) ++ map print text
cancel-text p byte text c none h =
    let q = record p { osc_terminator_pending = false; osc_payload = []; state = ground_state } in
    let ready : IsReady q = record {
      in_ground_state = refl;
      no_terminator = refl;
      complete = none;
    } in
    let (r, e, _) = parse-encode_text q text ready h in
    let whole =
      parse_prefix p q (byte ∷ []) (flat_map encode text) (unhook p.state ++ cancel_mark byte)
        (cancel_run p byte c) in
    rw (whole, e)

-- CAN in the middle of a character does not abandon it: with one byte missing, the continuation
-- byte that comes after CAN completes the character, and no U+FFFD reports the interruption.
pub cancel-keeps_character :
    (p : VtParser) (d : ℕ)
    → p.state ≡ ground_state
    → p.utf8_remaining ≡ 1
    → p.utf8_code_point < 32768
    → d < 64
    → (parse p (0x18 ∷ (0x80 + d) ∷ [])).1
      ≡ print (checked p.utf8_minimum (p.utf8_code_point * 64 + d)) ∷ []
unfolding parse advance on_cancel
cancel-keeps_character p d e one small lt =
    let q = record p { osc_terminator_pending = false; osc_payload = []; state = ground_state } in
    rw (e, continue_last q refl refl d lt one small)
