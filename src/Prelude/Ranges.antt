-- ===== src/Prelude/Ranges.antt =====
-- The vector operations of the grid: erase and insert at an index, fill a range, resize.
use Prim.Native.Nat.{ℕ, zero, suc, ◌+◌, ◌-◌, ◌≤◌, ◌<◌}
use mathlib.Core.Path.{◌≡◌, refl, ap}
use mathlib.Core.List.{List, [], ◌∷◌, ◌++◌, append-nil}
use native.Mathlib.Omega.{arith}
use ar_term.Prelude.Lists.{
  length, take, drop, replicate, length-append, length-take, length-drop, length-replicate, All,
  All-append, All-take, All-replicate,
}

module _ {ℓ} {A : Type ℓ} where
  -- `v.erase(v.begin() + i)`; past the end it changes nothing.
  abbrev pub erase_idx : List A → ℕ → List A
  erase_idx [] i = []
  erase_idx (x ∷ xs) zero = xs
  erase_idx (x ∷ xs) (suc i) = x ∷ erase_idx xs i

  -- `v.insert(v.begin() + i, a)`; past the end it appends.
  abbrev pub insert_idx : List A → ℕ → A → List A
  insert_idx xs zero a = a ∷ xs
  insert_idx [] (suc i) a = a ∷ []
  insert_idx (x ∷ xs) (suc i) a = x ∷ insert_idx xs i a

  -- `std::fill(v.begin() + lo, v.begin() + hi, a)`: beyond the end, and backwards, which is
  -- undefined behaviour, it makes the list longer, so that a bound that is missing is seen.
  abbrev pub fill_range : ℕ → ℕ → A → List A → List A
  fill_range lo hi a xs = take lo xs ++ (replicate (hi - lo) a ++ drop hi xs)

  -- `v.pop_back()`
  abbrev pub pop_back : List A → List A
  pop_back [] = []
  pop_back (x ∷ []) = []
  pop_back (x ∷ y ∷ ys) = x ∷ pop_back (y ∷ ys)

  -- `v.resize(n, a)`
  abbrev pub resize_to : ℕ → A → List A → List A
  resize_to n a xs = take n xs ++ replicate (n - length xs) a

module _ {ℓ} {A : Type ℓ} where
  pub length-erase_idx :
      (xs : List A) (i : ℕ) → i < length xs → length (erase_idx xs i) + 1 ≡ length xs
  length-erase_idx [] i h = absurd (omega arith)
  length-erase_idx (x ∷ xs) zero h = omega arith
  length-erase_idx (x ∷ xs) (suc i) h = omega (arith, length-erase_idx xs i (omega arith))

  pub length-insert_idx : (xs : List A) (i : ℕ) (a : A) → length (insert_idx xs i a) ≡ length xs + 1
  length-insert_idx xs zero a = omega arith
  length-insert_idx [] (suc i) a = omega arith
  length-insert_idx (x ∷ xs) (suc i) a = omega (arith, length-insert_idx xs i a)

  pub length-fill_range :
      (lo hi : ℕ) (a : A) (xs : List A)
      → lo ≤ hi
      → hi ≤ length xs
      → length (fill_range lo hi a xs) ≡ length xs
  length-fill_range lo hi a xs le inside = omega (
    arith,
    length-append (take lo xs) (replicate (hi - lo) a ++ drop hi xs),
    length-append (replicate (hi - lo) a) (drop hi xs),
    length-take lo xs,
    length-replicate (hi - lo) a,
    length-drop hi xs,
  )

  pub length-pop_back : (xs : List A) → length (pop_back xs) ≡ length xs - 1
  length-pop_back [] = omega arith
  length-pop_back (x ∷ []) = omega arith
  length-pop_back (x ∷ y ∷ ys) = omega (arith, length-pop_back (y ∷ ys))

  pub length-resize_to : (n : ℕ) (a : A) (xs : List A) → length (resize_to n a xs) ≡ n
  length-resize_to n a xs = omega (
    arith,
    length-append (take n xs) (replicate (n - length xs) a),
    length-take n xs,
    length-replicate (n - length xs) a,
  )

module _ {ℓ κ} {A : Type ℓ} (P : A → Type κ) where
  pub All-erase_idx : (xs : List A) (i : ℕ) → All P xs → All P (erase_idx xs i)
  All-erase_idx [] i h = tt
  All-erase_idx (x ∷ xs) zero h = h.1
  All-erase_idx (x ∷ xs) (suc i) h = (h.0, All-erase_idx xs i h.1)

  pub All-insert_idx : (xs : List A) (i : ℕ) (a : A) → P a → All P xs → All P (insert_idx xs i a)
  All-insert_idx xs zero a p h = (p, h)
  All-insert_idx [] (suc i) a p h = (p, tt)
  All-insert_idx (x ∷ xs) (suc i) a p h = (h.0, All-insert_idx xs i a p h.1)

  pub All-resize_to : (n : ℕ) (a : A) (xs : List A) → P a → All P xs → All P (resize_to n a xs)
  All-resize_to n a xs p h =
      All-append P (take n xs) _ (All-take P n xs h) (All-replicate P (n - length xs) a p)

module _ {ℓ} {A : Type ℓ} where
  pub take_all : (n : ℕ) (xs : List A) → length xs ≤ n → take n xs ≡ xs
  take_all zero [] h = refl
  take_all zero (x ∷ xs) h = absurd (omega arith)
  take_all (suc n) [] h = refl
  take_all (suc n) (x ∷ xs) h = ap (x ∷◌) (take_all n xs (omega arith))

  pub resize_to_self : (n : ℕ) (a : A) (xs : List A) → length xs ≡ n → resize_to n a xs ≡ xs
  resize_to_self n a xs e =
      let full : n - length xs ≡ 0 = omega arith in
      rw (full, append-nil) (take_all n xs (omega arith))
