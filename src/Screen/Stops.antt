-- ===== src/Screen/Stops.antt =====
-- What the tab searches of src/terminal/Screen.cpp find.
use ar_term.Prelude.{
  ℕ, zero, suc, ◌+◌, ◌-◌, ◌≤◌, ◌<◌, ◌≡◌, refl, ◌⊎◌, true, false, inl, inr, arith, ◌==◌, get_or,
  Bool-cases,
}
use ar_term.Screen.{Screen}
use ar_term.Screen.Tabs.{search_right, next_tab_stop, search_left, previous_tab_stop}

abbrev IsStop : Screen → ℕ → Type 0
IsStop s i = get_or s.tab_stops i false ≡ true

-- From `column` the cursor goes to `target`: behind no stop, and to a stop unless there is none
-- before the last column.
pub record IsNextStop (s : Screen) (column target : ℕ) : Type 0 where
  pub nothing_between : (i : ℕ) → column < i → i < target → get_or s.tab_stops i false ≡ false
  pub on_grid : target < s.columns
  pub right : column ≤ target
  pub stop_or_edge : IsStop s target ⊎ (target ≡ s.columns - 1)

pub record IsPreviousStop (s : Screen) (column target : ℕ) : Type 0 where
  pub nothing_between : (i : ℕ) → target < i → i < column → get_or s.tab_stops i false ≡ false
  pub left : target ≤ column - 1
  pub stop_or_start : IsStop s target ⊎ (target ≡ 0)

search_right-ends :
    (s : Screen) (i left : ℕ)
    → 0 < s.columns
    → i + left ≡ s.columns
    → (IsStop s (search_right s i left)
        × (i ≤ search_right s i left)
        × (search_right s i left < s.columns))
      ⊎ (search_right s i left ≡ s.columns - 1)
unfolding search_right
search_right-ends s i zero size e = inr refl
search_right-ends s i (suc left) size e = elim (Bool-cases (get_or s.tab_stops i false)) [
  | inl stop ↦ rw stop (inl (stop, omega arith, omega arith))
  | inr free ↦ rw free (ground (arith, search_right-ends s (i + 1) left size (omega arith)))
]

search_right-skips :
    (s : Screen) (i left j : ℕ)
    → i ≤ j
    → j < i + left
    → j < search_right s i left
    → get_or s.tab_stops j false ≡ false
unfolding search_right
search_right-skips s i zero j le size lt = absurd (omega arith)
search_right-skips s i (suc left) j le size lt = elim (Bool-cases (get_or s.tab_stops i false)) [
  | inl stop ↦ absurd (ground (arith, stop))
  | inr free ↦ elim (Bool-cases (i == j)) [
    | inl same ↦ let e : j ≡ i = ground arith in rw e free
    | inr other ↦
        search_right-skips s (i + 1) left j (ground arith) (omega arith) (ground (arith, free))
  ]
]

-- `nextTabStop` of a column on the grid gives a column on the grid, not to the left of it, with no
-- stop strictly between the two, and a stop unless it is the last column.
next_tab_stop-IsNextStop :
    (s : Screen) (column : ℕ) → column < s.columns → IsNextStop s column (next_tab_stop s column)
unfolding next_tab_stop
next_tab_stop-IsNextStop s column lt =
    let left = s.columns - (column + 1) in
    let ends = search_right-ends s (column + 1) left (omega arith) (omega arith) in
    let on_grid : search_right s (column + 1) left < s.columns = ground (arith, ends) in
    record {
      nothing_between = λ i a b.
          search_right-skips s (column + 1) left i (omega arith) (omega (arith, b, on_grid)) b;
      on_grid = on_grid;
      right = ground (arith, ends);
      stop_or_edge = ground (arith, ends);
    }

search_left-ends :
    (s : Screen) (i : ℕ)
    → (search_left s i ≤ i) × (IsStop s (search_left s i) ⊎ (search_left s i ≡ 0))
unfolding search_left
search_left-ends s zero = (omega arith, inr refl)
search_left-ends s (suc i) = elim (Bool-cases (get_or s.tab_stops (suc i) false)) [
  | inl stop ↦ rw stop (omega arith, inl stop)
  | inr free ↦ rw free (ground (arith, search_left-ends s i))
]

search_left-skips :
    (s : Screen) (i j : ℕ) → j ≤ i → search_left s i < j → get_or s.tab_stops j false ≡ false
unfolding search_left
search_left-skips s zero j le lt = absurd (omega arith)
search_left-skips s (suc i) j le lt = elim (Bool-cases (get_or s.tab_stops (suc i) false)) [
  | inl stop ↦ absurd (ground (arith, stop))
  | inr free ↦ elim (Bool-cases (suc i == j)) [
    | inl same ↦ let e : j ≡ suc i = ground arith in rw e free
    | inr other ↦ search_left-skips s i j (ground arith) (ground (arith, free))
  ]
]

-- `previousTabStop` of a column gives a column to the left of it (0 for 0), with no stop strictly
-- between the two, and a stop unless it is column 0.
previous_tab_stop-IsPreviousStop :
    (s : Screen) (column : ℕ) → IsPreviousStop s column (previous_tab_stop s column)
unfolding previous_tab_stop
previous_tab_stop-IsPreviousStop s column =
    let ends = search_left-ends s (column - 1) in
    record {
      nothing_between = λ i a b. search_left-skips s (column - 1) i (omega arith) a;
      left = ends.0;
      stop_or_start = ends.1;
    }
