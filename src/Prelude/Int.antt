-- ===== src/Prelude/Int.antt =====
-- Signed integers over the native numbers, under the library's names (its ℤ stands on the unary ℕ).
use ar_term.Prelude.{ℕ, zero, suc, ◌+◌, ◌-◌, ◌≤◌, ◌≡◌, Bool, arith, ltb, leb, if◌then◌else◌}

-- `negsuc n` is -(n + 1).
pub data ℤ : Type 0 where
  pos : ℕ → ℤ
  negsuc : ℕ → ℤ

abbrev pub pos_part : ℤ → ℕ
pos_part (pos n) = n
pos_part (negsuc n) = 0

abbrev neg_part : ℤ → ℕ
neg_part (pos n) = 0
neg_part (negsuc n) = suc n

-- a - b, as an integer.
abbrev pub sub_ℕ : ℕ → ℕ → ℤ
sub_ℕ a b = if leb b a then pos (a - b) else negsuc (b - a - 1)

infixl 65 ◌+ℤ◌
unfoldable pub ◌+ℤ◌ : ℤ → ℤ → ℤ
a +ℤ b = sub_ℕ (pos_part a + pos_part b) (neg_part a + neg_part b)

abbrev pub ltb_ℤ : ℤ → ℤ → Bool
ltb_ℤ a b = ltb (pos_part a + neg_part b) (pos_part b + neg_part a)

-- `std::clamp(v, lo, hi)` for bounds that are not negative, with lo ≤ hi.
unfoldable pub clamp : ℤ → ℕ → ℕ → ℕ
clamp (pos n) lo hi = if ltb n lo then lo else if ltb hi n then hi else n
clamp (negsuc n) lo hi = lo

-- `std::max(lo, v)` for a bound that is not negative.
unfoldable pub max_ℤ : ℕ → ℤ → ℕ
max_ℤ lo (pos n) = if ltb lo n then n else lo
max_ℤ lo (negsuc n) = lo

pub le-clamp : (v : ℤ) (lo hi : ℕ) → lo ≤ hi → lo ≤ clamp v lo hi
unfolding clamp
le-clamp (pos n) lo hi h = ground arith
le-clamp (negsuc n) lo hi h = omega arith

pub clamp-le : (v : ℤ) (lo hi : ℕ) → lo ≤ hi → clamp v lo hi ≤ hi
unfolding clamp
clamp-le (pos n) lo hi h = ground arith
clamp-le (negsuc n) lo hi h = omega arith

pub le-max_ℤ : (lo : ℕ) (v : ℤ) → lo ≤ max_ℤ lo v
unfolding max_ℤ
le-max_ℤ lo (pos n) = ground arith
le-max_ℤ lo (negsuc n) = omega arith

pub clamp_eq : (n lo hi : ℕ) → lo ≤ n → n ≤ hi → clamp (pos n) lo hi ≡ n
unfolding clamp
clamp_eq n lo hi h k = ground arith

abbrev pub neg : ℤ → ℤ
neg (pos zero) = pos 0
neg (pos (suc n)) = negsuc n
neg (negsuc n) = pos (n + 1)

-- z - 1
abbrev pub pred_ℤ : ℤ → ℤ
pred_ℤ z = z +ℤ negsuc 0
