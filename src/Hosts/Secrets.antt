-- ===== src/Hosts/Secrets.antt =====
-- Where the secrets of `HostStore` in src/model/HostStore.cpp are, and what is found again.
use ar_term.Prelude.{
  ℕ, ◌+◌, ◌≡◌, refl, not, ◌||◌, if◌then◌else◌, if_lem, inl, inr, Option-cases, arith, Option, none,
  some, List, [], ◌∷◌, All, All-append, equal_bytes,
}
use ar_term.Hosts.{HostProfile, without_secrets, is_empty}
use ar_term.Hosts.Json.{QtJson, from_json}
use ar_term.Hosts.Import.{
  QtLine, Surroundings, Import, begin, is_known, has_character, starts_with, word_host, finished,
  flush, open_block, set_option, import_option, import_line, import_lines, import_from_ssh_config,
}
use ar_term.Hosts.Store.{
  Keychain, Signal, HostStore, profile_by_id, replace_profile, remove_profile, add, update, remove,
  load_profiles,
}

-- No secret is in the profile.
abbrev pub IsBare : HostProfile → Type 0
IsBare p = (p.password ≡ []) × (p.key_passphrase ≡ [])

replace_profile-IsBare :
    (id : List ℕ) (p : HostProfile) (ps : List HostProfile)
    → IsBare p
    → All IsBare ps
    → All IsBare (replace_profile id p ps)
unfolding replace_profile
replace_profile-IsBare id p [] b h = tt
replace_profile-IsBare id p (q ∷ ps) b h =
    if_lem (All IsBare) (equal_bytes q.id id) _ _ (b, h.1)
      (h.0, replace_profile-IsBare id p ps b h.1)

remove_profile-IsBare :
    (id : List ℕ) (ps : List HostProfile) → All IsBare ps → All IsBare (remove_profile id ps)
unfolding remove_profile
remove_profile-IsBare id [] h = tt
remove_profile-IsBare id (q ∷ ps) h =
    if_lem (All IsBare) (equal_bytes q.id id) _ _ h.1 (h.0, remove_profile-IsBare id ps h.1)

load_profiles-IsBare :
    (qt : QtJson) (uuid : ℕ → List ℕ) (n : ℕ) (os : List (Option qt.Object))
    → All IsBare (load_profiles qt uuid n os)
unfolding load_profiles from_json
load_profiles-IsBare qt uuid n [] = tt
load_profiles-IsBare qt uuid n (none ∷ os) = load_profiles-IsBare qt uuid n os
load_profiles-IsBare qt uuid n (some o ∷ os) =
    let unnamed = is_empty (from_json qt o).id in
    let p = if unnamed then record (from_json qt o) { id = uuid n } else from_json qt o in
    let bare : IsBare p = if_lem IsBare unnamed _ _ (refl, refl) (refl, refl) in
    let later = load_profiles-IsBare qt uuid (if unnamed then n + 1 else n) os in
    if_lem (All IsBare) (is_empty p.hostname) _ _ later (bare, later)

-- The import starts each profile anew and sets no secret.
abbrev ImportsBare : Import → Type 0
ImportsBare st = IsBare st.current × All IsBare st.profiles

module _ (env : Surroundings) (qt : QtLine) where
  flush-ImportsBare : (st : Import) → ImportsBare st → ImportsBare (flush env qt st)
  unfolding flush
  flush-ImportsBare st h =
      if_lem ImportsBare (not st.in_host_block || is_empty st.current.hostname) _ _ h (
        if_lem ImportsBare (is_known st.current st.profiles) _ _ ((refl, refl), h.1)
          ((refl, refl), All-append IsBare st.profiles (finished env qt st ∷ []) h.1 (h.0, tt)))

  open_block-ImportsBare :
      (value : List ℕ) (st : Import) → ImportsBare st → ImportsBare (open_block env qt value st)
  unfolding open_block
  open_block-ImportsBare value st h =
      if_lem ImportsBare (has_character b'*' value || has_character b'?' value) _ _ h
        ((refl, refl), h.1)

  set_option-IsBare :
      (keyword value : List ℕ) (p : HostProfile)
      → IsBare p
      → IsBare (set_option env qt keyword value p)
  unfolding set_option
  set_option-IsBare keyword value p h = ground (arith, h)

  import_option-ImportsBare :
      (keyword value : List ℕ) (st : Import)
      → ImportsBare st
      → ImportsBare (import_option env qt keyword value st)
  unfolding import_option
  import_option-ImportsBare keyword value st h = if_lem ImportsBare (is_empty value) _ _ h (
      if_lem ImportsBare (equal_bytes keyword word_host) _ _
        (open_block-ImportsBare value (flush env qt st) (flush-ImportsBare st h))
        (if_lem ImportsBare (not st.in_host_block) _ _ h
          (set_option-IsBare keyword value st.current h.0, h.1)))

  import_lines-ImportsBare :
      (lines : List (List ℕ)) (st : Import)
      → ImportsBare st
      → ImportsBare (import_lines env qt lines st)
  unfolding import_lines import_line
  import_lines-ImportsBare [] st h = h
  import_lines-ImportsBare (line ∷ rest) st h =
      let text = qt.trimmed line in
      let spaced = qt.without_equals text in
      import_lines-ImportsBare rest (import_line env qt line st) (
        if_lem ImportsBare (is_empty text || starts_with b'#' text) _ _ h (
          import_option-ImportsBare (qt.to_lower (qt.first_section spaced))
            (qt.trimmed (qt.later_sections spaced)) st h))

  import-IsBare :
      (lines : List (List ℕ)) (made : ℕ) (ps : List HostProfile)
      → All IsBare ps
      → All IsBare (import_from_ssh_config env qt lines made ps).profiles
  unfolding import_from_ssh_config
  import-IsBare lines made ps h =
      (flush-ImportsBare _ (import_lines-ImportsBare lines (begin made ps) ((refl, refl), h))).1

-- The stores that the operations make, in any order, from any keychain.
pub data History (keychain : Keychain) : HostStore keychain → Type 1 where
  opened :
      (secrets : keychain.State) → History keychain (record { profiles = []; secrets = secrets })
  added :
      (uuid : List ℕ) (p : HostProfile) (s : HostStore keychain)
      → History keychain s
      → History keychain (add keychain uuid p s).0
  updated :
      (p : HostProfile) (s : HostStore keychain)
      → History keychain s
      → History keychain (update keychain p s).0
  removed :
      (id : List ℕ) (s : HostStore keychain)
      → History keychain s
      → History keychain (remove keychain id s).0
  loaded :
      (qt : QtJson) (uuid : ℕ → List ℕ) (n : ℕ) (os : List (Option qt.Object))
      (s : HostStore keychain)
      → History keychain s
      → History keychain (record s { profiles = load_profiles qt uuid n os })
  imported :
      (env : Surroundings) (qt : QtLine) (lines : List (List ℕ)) (made : ℕ) (s : HostStore keychain)
      → History keychain s
      → History keychain
          (record s { profiles = (import_from_ssh_config env qt lines made s.profiles).profiles })

module _ (keychain : Keychain) where
  add-IsBare :
      (uuid : List ℕ) (p : HostProfile) (s : HostStore keychain)
      → All IsBare s.profiles
      → All IsBare (add keychain uuid p s).0.profiles
  unfolding add
  add-IsBare uuid p s h =
      let named = if is_empty p.id then record p { id = uuid } else p in
      All-append IsBare s.profiles (without_secrets named ∷ []) h ((refl, refl), tt)

  abbrev StoresBare : HostStore keychain × List Signal → Type 0
  StoresBare o = All IsBare o.0.profiles

  update-IsBare :
      (p : HostProfile) (s : HostStore keychain)
      → All IsBare s.profiles
      → StoresBare (update keychain p s)
  unfolding update
  update-IsBare p s h = elim (Option-cases (profile_by_id p.id s.profiles)) [
    | inl missing ↦ rw (missing, update) h
    | inr (old, found) ↦
        rw (found, update)
          (replace_profile-IsBare p.id (without_secrets p) s.profiles (refl, refl) h)
  ]

  remove-IsBare :
      (id : List ℕ) (s : HostStore keychain)
      → All IsBare s.profiles
      → StoresBare (remove keychain id s)
  unfolding remove
  remove-IsBare id s h = elim (Option-cases (profile_by_id id s.profiles)) [
    | inl missing ↦ rw (missing, remove) h
    | inr (old, found) ↦ rw (found, remove) (remove_profile-IsBare id s.profiles h)
  ]

  -- Whatever was added, updated, removed, loaded and imported, in any order, no profile that the store keeps, and
  -- so none that it saves, has a password or a passphrase in it.
  pub History-IsBare : (s : HostStore keychain) → History keychain s → All IsBare s.profiles
  History-IsBare _ (opened secrets) = tt
  History-IsBare _ (added uuid p s from) = add-IsBare uuid p s (History-IsBare s from)
  History-IsBare _ (updated p s from) = update-IsBare p s (History-IsBare s from)
  History-IsBare _ (removed id s from) = remove-IsBare id s (History-IsBare s from)
  History-IsBare _ (loaded qt uuid n os s from) = load_profiles-IsBare qt uuid n os
  History-IsBare _ (imported env qt lines made s from) =
      import-IsBare env qt lines made s.profiles (History-IsBare s from)
