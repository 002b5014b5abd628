-- ===== src/Hosts/Repeat.antt =====
-- A second import of `importFromSshConfig` in src/model/HostStore.cpp.
use ar_term.Prelude.{
  ℕ, ◌≡◌, refl, sym, subst, ◌∙◌, ap, Bool, true, false, not, ◌||◌, inl, inr, Bool-cases, arith,
  List, [], ◌∷◌, equal_bytes,
}
use ar_term.Hosts.{HostProfile, default_profile, is_empty}
use ar_term.Hosts.Import.{
  QtLine, Surroundings, Import, begin, is_known, has_character, starts_with, word_host, finished,
  flush, open_block, set_option, import_option, import_line, import_lines, import_from_ssh_config,
}
use ar_term.Hosts.Known.{
  same_endpoint_refl, is_known-last, Knows, Covers, flush-Covers, open_block-profiles,
  import_lines-Covers,
}

module _ (env : Surroundings) (qt : QtLine) where
  -- The second run at the same place as the first, with all the profiles of the store.
  record Follows (all : List HostProfile) (n : ℕ) (a b : Import) : Type 0 where
    same_current : b.current ≡ a.current
    same_block : b.in_host_block ≡ a.in_host_block
    has_all : b.profiles ≡ all
    no_more : b.imported ≡ n

  -- The first run knows what it has flushed.
  flush-Knows :
      (a : Import)
      → (not a.in_host_block || is_empty a.current.hostname) ≡ false
      → Knows a.current (flush env qt a)
  unfolding flush
  flush-Knows a run = elim (Bool-cases (is_known a.current a.profiles)) [
    | inl known ↦ rw (run, known) known
    | inr new ↦
        rw (run, new)
          (is_known-last a.current a.profiles (finished env qt a) (same_endpoint_refl a.current))
  ]

  -- The branches of `flush`.
  abbrev is_idle : Import → Bool
  is_idle st = not st.in_host_block || is_empty st.current.hostname

  flush-idle : (st : Import) → is_idle st ≡ true → flush env qt st ≡ st
  unfolding flush
  flush-idle st e = ground (arith, e)

  flush-known :
      (st : Import)
      → is_idle st ≡ false
      → Knows st.current st
      → flush env qt st ≡ record st { current = default_profile }
  unfolding flush
  flush-known st e known = ground (arith, e, known)

  flush-clears :
      (st : Import)
      → is_idle st ≡ false
      → ((flush env qt st).current ≡ default_profile)
        × ((flush env qt st).in_host_block ≡ st.in_host_block)
  unfolding flush
  flush-clears st e = elim (Bool-cases (is_known st.current st.profiles)) [
    | inl known ↦ (rw (e, known) refl, rw (e, known) refl)
    | inr new ↦ (rw (e, new) refl, rw (e, new) refl)
  ]

  flush-Follows :
      (all : List HostProfile) (n : ℕ) (a b : Import)
      → Covers (flush env qt a).profiles all
      → Follows all n a b
      → Follows all n (flush env qt a) (flush env qt b)
  flush-Follows all n a b covers h =
      let same_test : is_idle b ≡ is_idle a =
        ap (λ k. not k || is_empty b.current.hostname) h.same_block
        ∙ ap (λ q. not a.in_host_block || is_empty q.hostname) h.same_current in
      elim (Bool-cases (is_idle a)) [
        | inl idle ↦
            subst (λ x. Follows all n x (flush env qt b)) (sym (flush-idle a idle))
              (subst (λ x. Follows all n a x) (sym (flush-idle b (same_test ∙ idle))) h)
        | inr run ↦
            let known : Knows b.current b =
              subst (λ q. is_known q b.profiles ≡ true) (sym h.same_current)
                (subst (λ ps. is_known a.current ps ≡ true) (sym h.has_all)
                  (covers a.current (flush-Knows a run))) in
            let (cleared, block) = flush-clears a run in
            subst (λ x. Follows all n (flush env qt a) x)
              (sym (flush-known b (same_test ∙ run) known))
              (record {
                same_current = sym cleared;
                same_block = h.same_block ∙ sym block;
                has_all = h.has_all;
                no_more = h.no_more;
              })
      ]

  open_block-Follows :
      (all : List HostProfile) (n : ℕ) (value : List ℕ) (a b : Import)
      → Follows all n a b
      → Follows all n (open_block env qt value a) (open_block env qt value b)
  unfolding open_block
  open_block-Follows all n value a b h =
      elim (Bool-cases (has_character b'*' value || has_character b'?' value)) [
        | inl pattern_host ↦ rw pattern_host (record {
          same_current = h.same_current;
          same_block = refl;
          has_all = h.has_all;
          no_more = h.no_more;
        })
        | inr named ↦ rw named (record {
          same_current = refl;
          same_block = refl;
          has_all = h.has_all;
          no_more = h.no_more;
        })
      ]

  -- The branches of a line.
  option-empty :
      (keyword value : List ℕ) (st : Import)
      → is_empty value ≡ true
      → import_option env qt keyword value st ≡ st
  unfolding import_option
  option-empty keyword value st e = ground (arith, e)

  option-host :
      (keyword value : List ℕ) (st : Import)
      → is_empty value ≡ false
      → equal_bytes keyword word_host ≡ true
      → import_option env qt keyword value st ≡ open_block env qt value (flush env qt st)
  unfolding import_option
  option-host keyword value st e host = rw (e, host, import_option) refl

  option-outside :
      (keyword value : List ℕ) (st : Import)
      → is_empty value ≡ false
      → equal_bytes keyword word_host ≡ false
      → st.in_host_block ≡ false
      → import_option env qt keyword value st ≡ st
  unfolding import_option
  option-outside keyword value st e other outside = ground (arith, e, other, outside)

  option-inside :
      (keyword value : List ℕ) (st : Import)
      → is_empty value ≡ false
      → equal_bytes keyword word_host ≡ false
      → st.in_host_block ≡ true
      → import_option env qt keyword value st
        ≡ record st { current = set_option env qt keyword value st.current }
  unfolding import_option
  option-inside keyword value st e other inside = ground (arith, e, other, inside)

  import_option-Follows :
      (all : List HostProfile) (n : ℕ) (keyword value : List ℕ) (a b : Import)
      → Covers (import_option env qt keyword value a).profiles all
      → Follows all n a b
      → Follows all n (import_option env qt keyword value a) (import_option env qt keyword value b)
  import_option-Follows all n keyword value a b covers h = elim (Bool-cases (is_empty value)) [
    | inl none_given ↦
        both (option-empty keyword value a none_given) (option-empty keyword value b none_given) h
    | inr given ↦ elim (Bool-cases (equal_bytes keyword word_host)) [
      | inl host ↦
          let same = option-host keyword value a given host ∙ refl in
          both same (option-host keyword value b given host)
            (open_block-Follows all n value _ _ (flush-Follows all n a b (flushed same) h))
      | inr other ↦ elim (Bool-cases a.in_host_block) [
        | inl inside ↦
            both (option-inside keyword value a given other inside)
              (option-inside keyword value b given other (h.same_block ∙ inside))
              (record {
                same_current = ap (set_option env qt keyword value) h.same_current;
                same_block = h.same_block;
                has_all = h.has_all;
                no_more = h.no_more;
              })
        | inr outside ↦
            both (option-outside keyword value a given other outside)
              (option-outside keyword value b given other (h.same_block ∙ outside)) h
      ]
    ]
  ]
    where
      both : {x y u v : Import} → x ≡ u → y ≡ v → Follows all n u v → Follows all n x y
      both {x} {y} {u} {v} e k f =
          subst (λ z. Follows all n z y) (sym e) (subst (λ z. Follows all n u z) (sym k) f)

      flushed :
          import_option env qt keyword value a ≡ open_block env qt value (flush env qt a)
          → Covers (flush env qt a).profiles all
      flushed same =
          subst (λ ps. Covers ps all) (open_block-profiles env qt value (flush env qt a))
            (subst (λ (st : Import). Covers st.profiles all) same covers)

  import_line-Follows :
      (all : List HostProfile) (n : ℕ) (line : List ℕ) (a b : Import)
      → Covers (import_line env qt line a).profiles all
      → Follows all n a b
      → Follows all n (import_line env qt line a) (import_line env qt line b)
  unfolding import_line
  import_line-Follows all n line a b covers h =
      let text = qt.trimmed line in
      let spaced = qt.without_equals text in
      elim (Bool-cases (is_empty text || starts_with b'#' text)) [
        | inl skipped ↦ rw (skipped, import_line) h
        | inr read ↦
            rw (read, import_line)
              (import_option-Follows all n (qt.to_lower (qt.first_section spaced))
                (qt.trimmed (qt.later_sections spaced)) a b (rw read at covers) h)
      ]

  import_lines-Follows :
      (all : List HostProfile) (n : ℕ) (lines : List (List ℕ)) (a b : Import)
      → Covers (import_lines env qt lines a).profiles all
      → Follows all n a b
      → Follows all n (import_lines env qt lines a) (import_lines env qt lines b)
  unfolding import_lines
  import_lines-Follows all n [] a b covers h = h
  import_lines-Follows all n (line ∷ rest) a b covers h =
      let covers_line : Covers (import_line env qt line a).profiles all =
        λ p k. covers p (import_lines-Covers env qt rest (import_line env qt line a) p k) in
      import_lines-Follows all n rest _ _ covers (import_line-Follows all n line a b covers_line h)

  -- A second import of the same file, with the same surroundings, finds every host known: it leaves the profiles as
  -- the first import left them and counts none, whatever the file, the profiles before the first
  -- and the identifiers made.
  pub import_from_ssh_config-repeat :
      (lines : List (List ℕ)) (made later : ℕ) (profiles : List HostProfile)
      → let first = import_from_ssh_config env qt lines made profiles in
        let second = import_from_ssh_config env qt lines later first.profiles in
        (second.profiles ≡ first.profiles) × (second.imported ≡ 0)
  unfolding import_from_ssh_config
  import_from_ssh_config-repeat lines made later profiles =
      let first = import_from_ssh_config env qt lines made profiles in
      let a : Import = begin made profiles in
      let b : Import = begin later first.profiles in
      let covers : Covers (import_lines env qt lines a).profiles first.profiles =
        flush-Covers env qt (import_lines env qt lines a) in
      let along =
        import_lines-Follows first.profiles 0 lines a b covers
          (record { same_current = refl; same_block = refl; has_all = refl; no_more = refl }) in
      let end = flush-Follows first.profiles 0 _ _ (λ p k. k) along in (end.has_all, end.no_more)
