-- ===== src/CharWidth.antt =====
-- src/terminal/CharWidth.cpp: the columns a code point takes on the grid.
pub mod Range
pub mod Search
pub mod Zero
pub mod Double
use ar_term.Prelude.{
  ℕ, ◌+◌, ◌≤◌, ◌<◌, ◌≡◌, refl, not, Bool, true, false, ◌&&◌, ◌||◌, inl, inr, arith, ltb, leb, ◌==◌,
  if◌then◌else◌, Bool-cases,
}
use ar_term.CharWidth.Range.{contains, is_ascending, scan}
use ar_term.CharWidth.Search.{contains-scan}
use ar_term.CharWidth.Zero.{zero_width}
use ar_term.CharWidth.Double.{double_width}

unfoldable pub character_width : ℕ → ℕ
character_width code_point =
    if code_point == 0
    then 0
    else if ltb code_point 0x20 || leb 0x7F code_point && ltb code_point 0xA0
    then 0
    else if ltb code_point 0x300
    then 1
    else if contains zero_width code_point
    then 0
    else if contains double_width code_point
    then 2
    else 1

-- The description: no column for a control or a code point in a range of `zero_width`, two for one
-- in a range of `double_width` alone, one for any other.
unfoldable pub described_width : ℕ → ℕ
described_width code_point =
    let control = ltb code_point 0x20 || leb 0x7F code_point && ltb code_point 0xA0 in
    let latin = ltb code_point 0x300 in
    if control || not latin && scan zero_width code_point
    then 0
    else if not latin && scan double_width code_point
    then 2
    else 1

zero_width-ascending : is_ascending zero_width ≡ true
unfolding is_ascending zero_width
zero_width-ascending = refl

double_width-ascending : is_ascending double_width ≡ true
unfolding is_ascending double_width
double_width-ascending = refl

-- For every code point, the width found by the binary searches is the described one, and it is at
-- most two columns.
pub character_width-described :
    (code_point : ℕ)
    → (character_width code_point ≡ described_width code_point) × (character_width code_point ≤ 2)
unfolding character_width described_width
character_width-described code_point =
    let zeros = contains-scan zero_width code_point zero_width-ascending in
    let doubles = contains-scan double_width code_point double_width-ascending in
    rw (zeros, doubles) (ground arith, ground arith)
