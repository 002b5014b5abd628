-- ===== src/CharWidth/Range.antt =====
-- The search in a table of ranges of src/terminal/CharWidth.cpp. `std::upper_bound` is the binary
-- search of the standard library, on fuel: as many rounds as there are entries are enough, since
-- each round makes the part that is searched shorter.
use ar_term.Prelude.{
  ℕ, zero, suc, ◌+◌, ◌-◌, ◌/◌, Bool, true, false, ◌&&◌, ◌||◌, List, [], ◌∷◌, ltb, leb, ◌==◌,
  if◌then◌else◌, length, get_or,
}

pub record Range : Type 0 where
  pub first : ℕ
  pub last : ℕ

abbrev pub range : ℕ → ℕ → Range
range first last = record { first = first; last = last }

-- A read in bounds.
abbrev pub entry : List Range → ℕ → Range
entry ranges i = get_or ranges i (range 0 0)

unfoldable pub upper_bound : ℕ → List Range → ℕ → ℕ → ℕ → ℕ
upper_bound zero ranges c first len = first
upper_bound (suc fuel) ranges c first len = elim (len == 0) [
  | true ↦ first
  | false ↦ elim (ltb c (entry ranges (first + len / 2)).first) [
    | true ↦ upper_bound fuel ranges c first (len / 2)
    | false ↦ upper_bound fuel ranges c (first + len / 2 + 1) (len - len / 2 - 1)
  ]
]

unfoldable pub contains : List Range → ℕ → Bool
contains ranges c =
    let it = upper_bound (length ranges) ranges c 0 (length ranges) in
    if it == 0
    then false
    else leb (entry ranges (it - 1)).first c && leb c (entry ranges (it - 1)).last

-- The table is in order, and its ranges do not overlap.
unfoldable pub is_ascending : List Range → Bool
is_ascending [] = true
is_ascending (r ∷ []) = leb r.first r.last
is_ascending (r ∷ t ∷ rest) = leb r.first r.last && ltb r.last t.first && is_ascending (t ∷ rest)

-- The plain description: some range has the code point.
unfoldable pub scan : List Range → ℕ → Bool
scan [] c = false
scan (r ∷ rest) c = leb r.first c && leb c r.last || scan rest c
