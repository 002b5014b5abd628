-- ===== src/KeyEncoder/Reading.antt =====
-- What a key of src/terminal/KeyEncoder.cpp sends, read back as a control sequence.
use ar_term.Prelude.{
  ℕ, ◌-◌, ◌/◌, ◌%◌, ◌≤◌, ◌≡◌, ◌≢◌, refl, sym, subst, ◌∙◌, ap, Bool, true, false, ◌==◌,
  if◌then◌else◌, Option, inl, inr, ◌⊎◌, Bool-cases, arith, none, some, List, [], ◌∷◌, ◌++◌,
}
use ar_term.Prelude.Int.{pos, pos_part}
use ar_term.VtParser.{CsiSequence, VtParser, csi_dispatch, is_final, parameter}
use ar_term.VtParser.Machine.{parse, unhook}
use ar_term.VtParser.Numbers.{decimal}
use ar_term.VtParser.Csi.{sequence_of, render, field, flatten, parse-csi}
use ar_term.KeyEncoder.{
  Modifiers, Options, Key, key_up, key_down, key_right, key_left, key_home, key_end, key_insert,
  key_delete, key_page_up, key_page_down, key_f1, key_f2, key_f3, key_f4, key_f5, key_f6, key_f7,
  key_f8, key_f9, key_f10, key_f11, key_f12, KeyEvent, modifier_parameter, tilde_sequence,
  cursor_sequence, tilde_number, cursor_final, function_final, is_reserved, encode, switch_key,
}

-- What xterm documents of the parameter: one more than the sum of 1 for Shift, 2 for Alt, 4 for
-- Ctrl and 8 for Meta, and none at all where no modifier is held.
pub modifiers_of : ℕ → Modifiers
modifiers_of value = record {
  shift = (value - 1) % 2 == 1;
  alt = (value - 1) / 2 % 2 == 1;
  control = (value - 1) / 4 % 2 == 1;
  meta = (value - 1) / 8 % 2 == 1;
}

modifiers_of-modifier_parameter : (m : Modifiers) → modifiers_of (modifier_parameter m) ≡ m
unfolding modifiers_of modifier_parameter
modifiers_of-modifier_parameter m = go m.shift m.alt m.control m.meta
  where
    go :
        (a b c d : Bool)
        → modifiers_of (modifier_parameter (record { shift = a; alt = b; control = c; meta = d }))
          ≡ record { shift = a; alt = b; control = c; meta = d }
    go true true true true = refl
    go true true true false = refl
    go true true false true = refl
    go true true false false = refl
    go true false true true = refl
    go true false true false = refl
    go true false false true = refl
    go true false false false = refl
    go false true true true = refl
    go false true true false = refl
    go false true false true = refl
    go false true false false = refl
    go false false true true = refl
    go false false true false = refl
    go false false false true = refl
    go false false false false = refl

-- What xterm documents of the keys: by the number before a tilde, and by the letter where the number
-- is 1.
unfoldable tilde_key : ℕ → Option Key
tilde_key number =
    if number == 2
    then some key_insert
    else if number == 3
    then some key_delete
    else if number == 5
    then some key_page_up
    else if number == 6
    then some key_page_down
    else if number == 15
    then some key_f5
    else if number == 17
    then some key_f6
    else if number == 18
    then some key_f7
    else if number == 19
    then some key_f8
    else if number == 20
    then some key_f9
    else if number == 21
    then some key_f10
    else if number == 23
    then some key_f11
    else if number == 24
    then some key_f12
    else none

unfoldable letter_key : ℕ → Option Key
letter_key final =
    if final == b'A'
    then some key_up
    else if final == b'B'
    then some key_down
    else if final == b'C'
    then some key_right
    else if final == b'D'
    then some key_left
    else if final == b'H'
    then some key_home
    else if final == b'F'
    then some key_end
    else if final == b'P'
    then some key_f1
    else if final == b'Q'
    then some key_f2
    else if final == b'R'
    then some key_f3
    else if final == b'S'
    then some key_f4
    else none

unfoldable pub key_of : (final number : ℕ) → Option Key
unfolding tilde_key letter_key
key_of final number =
    if final == b'~' then tilde_key number else if number == 1 then letter_key final else none

tilde_key-tilde_number :
    (number : ℕ) (key : Key) → tilde_key number ≡ some key → tilde_number key ≡ some number
unfolding tilde_key tilde_number
tilde_key-tilde_number number key e = ground (arith, e)

letter_key-final :
    (final : ℕ) (key : Key)
    → letter_key final ≡ some key
    → (cursor_final key ≡ some final) ⊎ (function_final key ≡ some final)
unfolding letter_key cursor_final function_final
letter_key-final final key e = ground (arith, e)

-- How a host reads the two numbers of a key's sequence; an absent one is 0.
abbrev first_number : CsiSequence → ℕ
first_number q = pos_part (parameter q 0 (pos 0))

abbrev second_number : CsiSequence → ℕ
second_number q = pos_part (parameter q 1 (pos 0))

-- From any state of a parser, the bytes are one control sequence of that final byte and those two
-- numbers.
abbrev ReadsAs : VtParser → List ℕ → ℕ → ℕ → ℕ → Type 0
ReadsAs p bytes final number modifier =
    (q : CsiSequence) × ((parse p bytes).1 ≡ unhook p.state ++ csi_dispatch q ∷ [])
    × (q.final ≡ final)
    × (first_number q ≡ number)
    × (second_number q ≡ modifier)

tilde-ReadsAs :
    (p : VtParser) (number modifier : ℕ)
    → number ≤ 999999
    → modifier ≤ 999999
    → ReadsAs p (tilde_sequence number modifier) b'~' number modifier
unfolding tilde_sequence parameter is_final render field
tilde-ReadsAs p number modifier le m_le = elim (Bool-cases (modifier == 0)) [
  | inl plain ↦
      let zero_eq : modifier ≡ 0 = ground (arith, plain) in
      rw zero_eq (
        record (sequence_of 0 (pos number ∷ [])) { final = b'~' },
        (parse-csi p none [] number b'~' tt (omega arith) tt le refl).0,
        refl,
        ground arith,
        refl,
      )
  | inr held ↦ (
    record (sequence_of 0 (pos number ∷ pos modifier ∷ [])) { final = b'~' },
    rw (held, flatten (decimal number) (decimal modifier) b';' b'~')
        (parse-csi p none (some number ∷ []) modifier b'~' tt (omega arith) (le, tt) m_le refl).0,
    refl,
    ground arith,
    ground arith,
  )
]

cursor-ReadsAs :
    (p : VtParser) (final modifier : ℕ) (application_mode : Bool)
    → is_final final ≡ true
    → modifier ≢ 0
    → modifier ≤ 999999
    → ReadsAs p (cursor_sequence final modifier application_mode) final 1 modifier
unfolding cursor_sequence parameter is_final render field
cursor-ReadsAs p final modifier application_mode h held m_le =
    let test : (modifier == 0) ≡ false = ground (arith, held) in
    (
      record (sequence_of 0 (pos 1 ∷ pos modifier ∷ [])) { final = final },
      rw test
          (parse-csi p none (some 1 ∷ []) modifier final tt (omega arith) (omega arith, tt) m_le
            h).0,
      refl,
      refl,
      ground arith,
    )

modifier_parameter-le : (m : Modifiers) → modifier_parameter m ≤ 999999
unfolding modifier_parameter
modifier_parameter-le m = ground arith

-- The same, read by xterm's tables: the key and the modifiers.
abbrev pub Tells : VtParser → List ℕ → Key → Modifiers → Type 0
Tells p bytes key modifiers =
    (q : CsiSequence) × ((parse p bytes).1 ≡ unhook p.state ++ csi_dispatch q ∷ [])
    × (key_of q.final (first_number q) ≡ some key)
    × (modifiers_of (second_number q) ≡ modifiers)

-- A key of one table is in no earlier one.
tilde_number-cursor_final :
    (key : Key) (number : ℕ) → tilde_number key ≡ some number → cursor_final key ≡ none
unfolding tilde_number cursor_final
tilde_number-cursor_final key number e = ground (arith, e)

function_final-others :
    (key : Key) (final : ℕ)
    → function_final key ≡ some final
    → (cursor_final key ≡ none) × (tilde_number key ≡ none)
unfolding tilde_number cursor_final function_final
function_final-others key final e = (ground (arith, e), ground (arith, e))

letters :
    (key : Key) (final : ℕ)
    → (cursor_final key ≡ some final) ⊎ (function_final key ≡ some final)
    → is_final final ≡ true
unfolding cursor_final function_final is_final
letters key final (inl e) = ground (arith, e)
letters key final (inr e) = ground (arith, e)

not_tilde :
    (key : Key) (final : ℕ)
    → (cursor_final key ≡ some final) ⊎ (function_final key ≡ some final)
    → final ≢ b'~'
unfolding cursor_final function_final
not_tilde key final (inl e) = ground (arith, e)
not_tilde key final (inr e) = ground (arith, e)

module _ (is_macos : Bool) (to_utf8 : List ℕ → List ℕ) where
  -- The number, or the letter, of a key's sequence; a cursor key stands for the number 1.
  abbrev HasCode : Key → ℕ → ℕ → Type 0
  HasCode key final number =
      ((final ≡ b'~') × (tilde_number key ≡ some number))
      ⊎ ((number ≡ 1) × ((cursor_final key ≡ some final) ⊎ (function_final key ≡ some final)))

  encode-switch :
      (event : KeyEvent) (options : Options)
      → is_reserved is_macos event.modifiers ≡ false
      → encode is_macos to_utf8 event options ≡ switch_key is_macos to_utf8 event options
  unfolding encode
  encode-switch event options e = ground (arith, e)

  switch-tilde :
      (event : KeyEvent) (options : Options) (number : ℕ)
      → tilde_number event.key ≡ some number
      → switch_key is_macos to_utf8 event options
        ≡ tilde_sequence number (modifier_parameter event.modifiers)
  unfolding switch_key
  switch-tilde event options number e =
      ground (arith, e, tilde_number-cursor_final event.key number e)

  -- A cursor key, with the mode that it takes.
  switch-cursor :
      (event : KeyEvent) (options : Options) (final : ℕ)
      → (cursor_final event.key ≡ some final) ⊎ (function_final event.key ≡ some final)
      → (mode : Bool) × (switch_key is_macos to_utf8 event options
          ≡ cursor_sequence final (modifier_parameter event.modifiers) mode)
  unfolding switch_key
  switch-cursor event options final (inl e) = (options.application_cursor_keys, ground (arith, e))
  switch-cursor event options final (inr e) =
      let (first, second) = function_final-others event.key final e in
      (true, ground (arith, e, first, second))

  tilde_number-le : (key : Key) (number : ℕ) → tilde_number key ≡ some number → number ≤ 999999
  unfolding tilde_number
  tilde_number-le key number e = ground (arith, e)

  key_of-HasCode :
      (key : Key) (final number : ℕ) → key_of final number ≡ some key → HasCode key final number
  unfolding key_of
  key_of-HasCode key final number e = elim (Bool-cases (final == b'~')) [
    | inl tilde ↦
        inl (ground (arith, tilde), tilde_key-tilde_number number key (ground (arith, e, tilde)))
    | inr letter ↦ elim (Bool-cases (number == 1)) [
      | inl one ↦
          inr (ground (arith, one), letter_key-final final key (ground (arith, e, letter, one)))
      | inr other ↦ absurd (ground (arith, e, letter, other))
    ]
  ]

  encode-ReadsAs :
      (p : VtParser) (event : KeyEvent) (options : Options) (final number : ℕ)
      → is_reserved is_macos event.modifiers ≡ false
      → HasCode event.key final number
      → (final ≡ b'~') ⊎ (modifier_parameter event.modifiers ≢ 0)
      → ReadsAs p
          (encode is_macos to_utf8 event options)
          final
          number
          (modifier_parameter event.modifiers)
  encode-ReadsAs p event options final number free (inl (tilde, e)) held =
      let modifier = modifier_parameter event.modifiers in
      let same = encode-switch event options free ∙ switch-tilde event options number e in
      subst (λ bytes. ReadsAs p bytes final number modifier) (sym same)
        (subst (λ f. ReadsAs p (tilde_sequence number modifier) f number modifier) (sym tilde)
          (tilde-ReadsAs p number modifier (tilde_number-le event.key number e)
            (modifier_parameter-le event.modifiers)))
  encode-ReadsAs p event options final number free (inr (one, e)) (inl tilde) =
      absurd (ground (arith, tilde, not_tilde event.key final e))
  encode-ReadsAs p event options final number free (inr (one, e)) (inr some_held) =
      let modifier = modifier_parameter event.modifiers in
      let (mode, same) = switch-cursor event options final e in
      subst (λ bytes. ReadsAs p bytes final number modifier)
        (sym (encode-switch event options free ∙ same))
        (subst (λ n. ReadsAs p (cursor_sequence final modifier mode) final n modifier) (sym one)
          (cursor-ReadsAs p final modifier mode (letters event.key final e) some_held
            (modifier_parameter-le event.modifiers)))

  pub parse-encode :
      (p : VtParser) (event : KeyEvent) (options : Options) (final number : ℕ)
      → is_reserved is_macos event.modifiers ≡ false
      → key_of final number ≡ some event.key
      → (final ≡ b'~') ⊎ (modifier_parameter event.modifiers ≢ 0)
      → Tells p (encode is_macos to_utf8 event options) event.key event.modifiers
  parse-encode p event options final number free code held =
      let (q, events, letter, first, second) =
        encode-ReadsAs p event options final number free
          (key_of-HasCode event.key final number code) held in
      (
        q,
        events,
        ap (λ f. key_of f (first_number q)) letter ∙ ap (key_of final) first ∙ code,
        ap modifiers_of second ∙ modifiers_of-modifier_parameter event.modifiers,
      )
