-- ===== src/CharWidth/Search.antt =====
-- The binary search of src/terminal/CharWidth.cpp against a look at every range of the table.
use ar_term.Prelude.{
  ℕ, zero, suc, ◌+◌, ◌-◌, ◌/◌, ◌≤◌, ◌<◌, ◌≡◌, refl, sym, true, false, ◌&&◌, inl, inr, List, [], ◌∷◌,
  arith, ltb, leb, ltb→lt, ◌==◌, if◌then◌else◌, length, Bool-cases,
}
use ar_term.CharWidth.Range.{Range, entry, upper_bound, contains, is_ascending, scan}

-- An entry comes wholly before the later ones.
ascending_before :
    (r : Range) (ranges : List Range) (j : ℕ)
    → is_ascending (r ∷ ranges) ≡ true
    → j < length ranges
    → r.last < (entry ranges j).first
unfolding is_ascending
ascending_before r [] j h lt = absurd (omega arith)
ascending_before r (t ∷ rest) zero h lt = ground arith
ascending_before r (t ∷ []) (suc j) h lt = absurd (omega arith)
ascending_before r (t ∷ u ∷ rest) (suc j) h lt = ground (arith, ascending_before t (u ∷ rest) j)

ascending_tail :
    (r : Range) (ranges : List Range)
    → is_ascending (r ∷ ranges) ≡ true
    → is_ascending ranges ≡ true
unfolding is_ascending
ascending_tail r [] h = refl
ascending_tail r (t ∷ rest) h = ground arith

ascending_pair :
    (ranges : List Range) (i j : ℕ)
    → is_ascending ranges ≡ true
    → i < j
    → j < length ranges
    → (entry ranges i).last < (entry ranges j).first
ascending_pair [] i j h lt size = absurd (omega arith)
ascending_pair (r ∷ ranges) i zero h lt size = absurd (omega arith)
ascending_pair (r ∷ ranges) zero (suc j) h lt size = ascending_before r ranges j h (omega arith)
ascending_pair (r ∷ ranges) (suc i) (suc j) h lt size =
    ascending_pair ranges i j (ascending_tail r ranges h) (omega arith) (omega arith)

ascending_range :
    (ranges : List Range) (i : ℕ)
    → is_ascending ranges ≡ true
    → i < length ranges
    → (entry ranges i).first ≤ (entry ranges i).last
unfolding is_ascending
ascending_range [] i h lt = absurd (omega arith)
ascending_range (r ∷ []) zero h lt = ground arith
ascending_range (r ∷ []) (suc i) h lt = absurd (omega arith)
ascending_range (r ∷ t ∷ rest) zero h lt = ground arith
ascending_range (r ∷ t ∷ rest) (suc i) h lt =
    ascending_range (t ∷ rest) i (ascending_tail r (t ∷ rest) h) (omega arith)

-- Where the search stands: what is before it starts at `c` or below, what is behind it above `c`.
record Splits (ranges : List Range) (c lo hi : ℕ) : Type 0 where
  before : (j : ℕ) → j < lo → (entry ranges j).first ≤ c
  behind : (j : ℕ) → hi ≤ j → j < length ranges → c < (entry ranges j).first

module _ (ranges : List Range) (c : ℕ) (ascending : is_ascending ranges ≡ true) where
  first_mono :
      (i j : ℕ) → i ≤ j → j < length ranges → (entry ranges i).first ≤ (entry ranges j).first
  first_mono i j le lt = elim (Bool-cases (i == j)) [
    | inl same ↦ let e : i ≡ j = ground arith in rw e (omega arith)
    | inr other ↦
        let less : i < j = ground arith in
        omega (
          arith,
          ascending_pair ranges i j ascending less lt,
          ascending_range ranges i ascending (omega arith),
        )
  ]

  upper_bound-Splits :
      (fuel first len : ℕ)
      → len ≤ fuel
      → first + len ≤ length ranges
      → Splits ranges c first (first + len)
      → (upper_bound fuel ranges c first len ≤ length ranges)
        × Splits ranges c
            (upper_bound fuel ranges c first len)
            (upper_bound fuel ranges c first len)
  unfolding upper_bound
  upper_bound-Splits zero first len le fits h =
      (omega arith, record { before = h.before; behind = λ j a b. h.behind j (omega arith) b })
  upper_bound-Splits (suc fuel) first len le fits h = elim (Bool-cases (len == 0)) [
    | inl done ↦
        let e : len ≡ 0 = ground arith in
        rw (done, upper_bound)
          (omega arith, record { before = h.before; behind = λ j a b. h.behind j (omega arith) b })
    | inr more ↦
        let mid = first + len / 2 in
        let pos_len : 0 < len = ground arith in
        rw (more, upper_bound)
          (elim (Bool-cases (ltb c (entry ranges mid).first)) [
            | inl left ↦
                rw (left, upper_bound)
                  (upper_bound-Splits fuel first (len / 2) (omega arith) (omega arith) (record {
                    before = h.before;
                    behind = λ j a b.
                        omega (arith, ltb→lt c (entry ranges mid).first left, first_mono mid j a b);
                  }))
            | inr right ↦
                let le_c : (entry ranges mid).first ≤ c = ground arith in
                rw (right, upper_bound)
                  (upper_bound-Splits fuel (mid + 1) (len - len / 2 - 1) (omega arith) (omega arith)
                    (record {
                      before =
                          λ j a. omega (arith, le_c, first_mono j mid (omega arith) (omega arith));
                      behind = λ j a b. h.behind j (omega arith) b;
                    }))
          ])
  ]

-- A range that holds the code point makes the scan succeed, and only such a one does.
scan-entry :
    (ranges : List Range) (c i : ℕ)
    → i < length ranges
    → leb (entry ranges i).first c ≡ true
    → leb c (entry ranges i).last ≡ true
    → scan ranges c ≡ true
unfolding scan
scan-entry [] c i lt low high = absurd (omega arith)
scan-entry (r ∷ ranges) c zero lt low high = ground arith
scan-entry (r ∷ ranges) c (suc i) lt low high =
    ground (arith, scan-entry ranges c i (omega arith) low high)

scan-none :
    (ranges : List Range) (c : ℕ)
    → ((i : ℕ)
        → i < length ranges
        → (leb (entry ranges i).first c && leb c (entry ranges i).last) ≡ false)
    → scan ranges c ≡ false
unfolding scan
scan-none [] c outside = refl
scan-none (r ∷ ranges) c outside =
    let here = outside 0 (omega arith) in
    let later = scan-none ranges c (λ i lt. outside (suc i) (omega arith)) in rw (here, later) refl

-- No range has the code point when the one below where the search ends ends too early.
entry_outside :
    (ranges : List Range) (c i k : ℕ)
    → is_ascending ranges ≡ true
    → i < length ranges
    → k < length ranges
    → Splits ranges c (suc k) (suc k)
    → (entry ranges k).last < c
    → (leb (entry ranges i).first c && leb c (entry ranges i).last) ≡ false
entry_outside ranges c i k ascending lt size h past = elim (Bool-cases (ltb k i)) [
  | inl later ↦
      let above : c < (entry ranges i).first = h.behind i (ground arith) lt in ground arith
  | inr early ↦
      let ends : (entry ranges i).last < c = elim (Bool-cases (i == k)) [
        | inl same ↦ let e : i ≡ k = ground arith in rw e past
        | inr other ↦
            let less : i < k = ground arith in
            omega (
              arith,
              past,
              ascending_pair ranges i k ascending less size,
              ascending_range ranges k ascending size,
            )
      ] in
      ground arith
]

entry_decides :
    (ranges : List Range) (c k : ℕ)
    → is_ascending ranges ≡ true
    → k < length ranges
    → Splits ranges c (suc k) (suc k)
    → (leb (entry ranges k).first c && leb c (entry ranges k).last) ≡ scan ranges c
entry_decides ranges c k ascending size h =
    let below : (entry ranges k).first ≤ c = h.before k (omega arith) in
    elim (Bool-cases (leb c (entry ranges k).last)) [
      | inl inside ↦
          let low : leb (entry ranges k).first c ≡ true = ground arith in
          rw (low, inside) (sym (scan-entry ranges c k size low inside))
      | inr outside ↦
          let past : (entry ranges k).last < c = ground arith in
          let none =
            scan-none ranges c (λ i lt. entry_outside ranges c i k ascending lt size h past) in
          ground (arith, none)
    ]

-- The range just below where the search ends decides.
found-scan :
    (ranges : List Range) (c it : ℕ)
    → is_ascending ranges ≡ true
    → it ≤ length ranges
    → Splits ranges c it it
    → (if it == 0
        then false
        else leb (entry ranges (it - 1)).first c && leb c (entry ranges (it - 1)).last)
      ≡ scan ranges c
found-scan ranges c zero ascending le h = sym (
    scan-none ranges c (λ i lt.
      let above : c < (entry ranges i).first = h.behind i (omega arith) lt in ground arith))
found-scan ranges c (suc k) ascending le h =
    ground (arith, entry_decides ranges c k ascending (omega arith) h)

-- On a table whose ranges are in order and do not overlap, the binary search agrees with a look at
-- every range, for every code point.
pub contains-scan :
    (ranges : List Range) (c : ℕ) → is_ascending ranges ≡ true → contains ranges c ≡ scan ranges c
unfolding contains
contains-scan ranges c ascending =
    let it = upper_bound (length ranges) ranges c 0 (length ranges) in
    let start : Splits ranges c 0 (0 + length ranges) = record {
      before = λ j a. absurd (omega arith);
      behind = λ j a b. absurd (omega arith);
    } in
    let found =
      upper_bound-Splits ranges c ascending (length ranges) 0 (length ranges) (omega arith)
        (omega arith) start in
    found-scan ranges c it ascending found.0 found.1
