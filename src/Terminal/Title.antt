-- ===== src/Terminal/Title.antt =====
-- The title that `oscDispatch` of src/terminal/Terminal.cpp keeps: whatever the remote side sends.
use ar_term.Prelude.{
  ℕ, ◌≤◌, ◌≡◌, false, ◌||◌, ltb, if_lem, arith, none, some, List, [], ◌∷◌, length, length-take, All,
  All-take, remove_if, All-remove_if, equal_bytes,
}
use ar_term.Prelude.Int.{ℤ}
use ar_term.Terminal.Modes.{Terminal, title_changed}
use ar_term.Terminal.Valid.{IsValid, Keeps}
use ar_term.Terminal.Osc.{
  QtText, split_semicolon, title_limit, title_of, set_title, run_command, osc_dispatch,
}

module _ (qt : QtText) where
  kept : (c : ℕ) → (qt.is_non_character c || ltb c 0x20) ≡ false → 0x20 ≤ c
  kept c e = ground (arith, e)

  title_of-clean : (argument : List ℕ) → All (λ c. 0x20 ≤ c) (title_of qt argument)
  unfolding title_of
  title_of-clean argument =
      All-take (λ c. 0x20 ≤ c) title_limit _
        (All-remove_if (λ c. 0x20 ≤ c) (λ c. qt.is_non_character c || ltb c 0x20)
          (qt.from_utf8 argument) kept)

  length-title_of : (argument : List ℕ) → length (title_of qt argument) ≤ 256
  unfolding title_of
  length-title_of argument = omega (
    arith,
    length-take title_limit
        (remove_if (λ c. qt.is_non_character c || ltb c 0x20) (qt.from_utf8 argument)),
  )

module _ {columns rows : ℕ} (qt : QtText) where
  set_title-IsValid :
      (title : List ℕ) (t : Terminal)
      → All (λ c. 0x20 ≤ c) title
      → length title ≤ 256
      → IsValid columns rows t
      → IsValid columns rows (set_title title t).0
  unfolding set_title
  set_title-IsValid title t clean le h =
      if_lem (Keeps columns rows) (equal_bytes title t.title) (t, [])
        (record t { title = title }, title_changed title ∷ []) h
        (record {
          columns_eq = h.columns_eq;
          rows_eq = h.rows_eq;
          normal_fits = h.normal_fits;
          alternate_fits = h.alternate_fits;
          agrees = h.agrees;
          charset_le = h.charset_le;
          saved_le = h.saved_le;
          saved_alternate_le = h.saved_alternate_le;
          title_clean = clean;
          title_le = le;
        })

  run_command-IsValid :
      (command : ℤ) (argument : List ℕ) (t : Terminal)
      → IsValid columns rows t
      → IsValid columns rows (run_command qt command argument t).0
  unfolding run_command
  run_command-IsValid command argument t h =
      if_lem (Keeps columns rows) _ _ _
        (set_title-IsValid (title_of qt argument) t (title_of-clean qt argument)
          (length-title_of qt argument) h)
        (if_lem (Keeps columns rows) _ _ _ h h)

  -- An operating system command keeps a valid terminal valid, with any bytes and whatever Qt makes
  -- of them: its title has no control below 0x20 and at most 256 units.
  pub osc_dispatch-IsValid :
      (payload : List ℕ) (t : Terminal)
      → IsValid columns rows t
      → IsValid columns rows (osc_dispatch qt payload t).0
  unfolding osc_dispatch
  osc_dispatch-IsValid payload t h =
      elim (split_semicolon payload)
        as (λ o. Keeps columns rows (elim o [
          | none ↦ (t, [])
          | some (left, argument) ↦ elim (qt.to_int left) [
            | none ↦ (t, [])
            | some command ↦ run_command qt command argument t
          ]
        ])) [
          | none ↦ h
          | some (left, argument) ↦
              elim (qt.to_int left)
                as (λ o.
                  Keeps columns rows (elim o [
                    | none ↦ (t, [])
                    | some command ↦ run_command qt command argument t
                  ])) [ none ↦ h | some command ↦ run_command-IsValid command argument t h ]
        ]
