-- ===== src/Hosts/Known.antt =====
-- The hosts that `importFromSshConfig` in src/model/HostStore.cpp knows already.
use ar_term.Prelude.{
  ℕ, ◌≡◌, refl, sym, subst, true, not, ◌||◌, if_lem, inl, inr, Bool-cases, arith, List, [], ◌∷◌,
  ◌++◌, equal_bytes, equal_bytes_refl,
}
use ar_term.Hosts.{HostProfile, is_empty}
use ar_term.Hosts.Import.{
  QtLine, Surroundings, Import, same_endpoint, is_known, starts_with, word_host, finished, flush,
  open_block, import_option, import_line, import_lines,
}

pub same_endpoint_refl : (p : HostProfile) → same_endpoint p p ≡ true
same_endpoint_refl p = ground (arith, equal_bytes_refl p.hostname, equal_bytes_refl p.username)

is_known-append :
    (p : HostProfile) (xs ys : List HostProfile)
    → is_known p xs ≡ true
    → is_known p (xs ++ ys) ≡ true
is_known-append p [] ys h = absurd (ground (arith, h))
is_known-append p (q ∷ xs) ys h = elim (Bool-cases (same_endpoint q p)) [
  | inl same ↦ rw same refl
  | inr other ↦ rw other (is_known-append p xs ys (ground (arith, h, other)))
]

pub is_known-last :
    (p : HostProfile) (xs : List HostProfile) (q : HostProfile)
    → same_endpoint q p ≡ true
    → is_known p (xs ++ q ∷ []) ≡ true
is_known-last p [] q h = ground (arith, h)
is_known-last p (x ∷ xs) q h = ground (arith, is_known-last p xs q h)

abbrev pub Knows : HostProfile → Import → Type 0
Knows p st = is_known p st.profiles ≡ true

-- Every endpoint known in the one list is known in the other.
abbrev pub Covers : List HostProfile → List HostProfile → Type 0
Covers xs ys = (p : HostProfile) → is_known p xs ≡ true → is_known p ys ≡ true

module _ (env : Surroundings) (qt : QtLine) where
  pub flush-Covers : (st : Import) → Covers st.profiles (flush env qt st).profiles
  unfolding flush
  flush-Covers st p h =
      if_lem (Knows p) (not st.in_host_block || is_empty st.current.hostname) _ _ h (
        if_lem (Knows p) (is_known st.current st.profiles) _ _ h
          (is_known-append p st.profiles (finished env qt st ∷ []) h))

  pub open_block-profiles :
      (value : List ℕ) (st : Import) → (open_block env qt value st).profiles ≡ st.profiles
  unfolding open_block
  open_block-profiles value st = ground arith

  import_option-Covers :
      (keyword value : List ℕ) (st : Import)
      → Covers st.profiles (import_option env qt keyword value st).profiles
  unfolding import_option
  import_option-Covers keyword value st p h = if_lem (Knows p) (is_empty value) _ _ h (
      if_lem (Knows p) (equal_bytes keyword word_host) _ _
        (subst (λ ps. is_known p ps ≡ true) (sym (open_block-profiles value (flush env qt st)))
          (flush-Covers st p h))
        (if_lem (Knows p) (not st.in_host_block) _ _ h h))

  import_line-Covers :
      (line : List ℕ) (st : Import) → Covers st.profiles (import_line env qt line st).profiles
  unfolding import_line
  import_line-Covers line st p h =
      let text = qt.trimmed line in
      let spaced = qt.without_equals text in
      if_lem (Knows p) (is_empty text || starts_with b'#' text) _ _ h (
        import_option-Covers (qt.to_lower (qt.first_section spaced))
          (qt.trimmed (qt.later_sections spaced)) st p h)

  pub import_lines-Covers :
      (lines : List (List ℕ)) (st : Import)
      → Covers st.profiles (import_lines env qt lines st).profiles
  unfolding import_lines
  import_lines-Covers [] st p h = h
  import_lines-Covers (line ∷ rest) st p h =
      import_lines-Covers rest (import_line env qt line st) p (import_line-Covers line st p h)
