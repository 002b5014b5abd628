-- ===== src/Terminal/Osc.antt =====
-- `oscDispatch` of src/terminal/Terminal.cpp. What Qt does to text is a parameter: `toInt`,
-- `fromUtf8`, `isNonCharacter` and the Base64 decoding. A string is the list of its UTF-16 units.
use ar_term.Prelude.{
  ℕ, Bool, true, false, ◌||◌, ltb, ◌==◌, if◌then◌else◌, Option, none, some, List, [], ◌∷◌, take,
  remove_if, equal_bytes,
}
use ar_term.Prelude.Int.{ℤ, pos, negsuc}
use ar_term.Terminal.Modes.{Terminal, Signal, title_changed, clipboard_write_requested, Outcome}

pub record QtText : Type 0 where
  pub to_int : List ℕ → Option ℤ
  pub from_utf8 : List ℕ → List ℕ
  pub is_non_character : ℕ → Bool
  pub from_base64 : List ℕ → Option (List ℕ)

-- `indexOf(';')`, `left` and `mid`: what stands before and behind the first semicolon.
unfoldable pub split_semicolon : List ℕ → Option (List ℕ × List ℕ)
split_semicolon [] = none
split_semicolon (c ∷ rest) = elim (c == b';') [
  | true ↦ some ([], rest)
  | false ↦ elim (split_semicolon rest) [
    | none ↦ none
    | some (left, right) ↦ some (c ∷ left, right)
  ]
]

abbrev pub title_limit : ℕ
title_limit = 256

abbrev is_command : ℤ → ℕ → Bool
is_command (pos n) m = n == m
is_command (negsuc n) m = false

unfoldable pub set_title : List ℕ → Terminal → Outcome
set_title title t =
    if equal_bytes title t.title
    then (t, [])
    else (record t { title = title }, title_changed title ∷ [])

module _ (qt : QtText) where
  -- The title that an argument stands for.
  unfoldable pub title_of : List ℕ → List ℕ
  title_of argument =
      take title_limit
        (remove_if (λ unit. qt.is_non_character unit || ltb unit 0x20) (qt.from_utf8 argument))

  -- The case 52.
  unfoldable clipboard : List ℕ → List Signal
  unfolding split_semicolon
  clipboard argument = elim (split_semicolon argument) [
    | none ↦ []
    | some (_, encoded) ↦
        if equal_bytes encoded (b'?' ∷ []) then [] else elim (qt.from_base64 encoded) [
          | none ↦ []
          | some decoded ↦ clipboard_write_requested (qt.from_utf8 decoded) ∷ []
        ]
  ]

  unfoldable pub run_command : ℤ → List ℕ → Terminal → Outcome
  unfolding title_of set_title clipboard
  run_command command argument t =
      if is_command command 0 || is_command command 2
      then set_title (title_of argument) t
      else if is_command command 52
      then (t, clipboard argument)
      else (t, [])

  unfoldable pub osc_dispatch : List ℕ → Terminal → Outcome
  unfolding split_semicolon run_command
  osc_dispatch payload t = elim (split_semicolon payload) [
    | none ↦ (t, [])
    | some (left, argument) ↦ elim (qt.to_int left) [
      | none ↦ (t, [])
      | some command ↦ run_command command argument t
    ]
  ]
