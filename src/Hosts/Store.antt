-- ===== src/Hosts/Store.antt =====
-- `HostStore` of src/model/HostStore.cpp: the list of profiles and its operations. The keychain of
-- the platform, the identifiers that `QUuid` makes and the file are outside: an operation says what it
-- stores there, removes from there and saves.
use ar_term.Prelude.{
  ℕ, ◌+◌, Bool, not, if◌then◌else◌, Option, none, some, List, [], ◌∷◌, ◌++◌, map, equal_bytes,
}
use ar_term.Hosts.{HostProfile, default_profile, without_secrets, is_empty}
use ar_term.Hosts.Json.{QtJson, to_json, from_json}

-- The two kinds of secret.
pub data SecretKind : Type 0 where
  password passphrase : SecretKind

-- `SecretStore`
pub record Keychain : Type 1 where
  pub State : Type 0
  pub is_available : Bool
  pub store : State → (id : List ℕ) → SecretKind → (secret : List ℕ) → State
  pub retrieve : State → (id : List ℕ) → SecretKind → Option (List ℕ)
  pub remove_all : State → (id : List ℕ) → State

pub data Signal : Type 0 where
  saved : List HostProfile → Signal
  profile_added profile_updated profile_removed : (id : List ℕ) → Signal
  changed : Signal

-- The first profile with that identifier.
unfoldable pub profile_by_id : List ℕ → List HostProfile → Option HostProfile
profile_by_id id [] = none
profile_by_id id (p ∷ rest) = if equal_bytes p.id id then some p else profile_by_id id rest

-- `m_profiles[index] = stored` for the index of that identifier, and `removeAt` for it.
unfoldable pub replace_profile : List ℕ → HostProfile → List HostProfile → List HostProfile
replace_profile id stored [] = []
replace_profile id stored (p ∷ rest) =
    let kept = replace_profile id stored rest in
    if equal_bytes p.id id then stored ∷ rest else p ∷ kept

unfoldable pub remove_profile : List ℕ → List HostProfile → List HostProfile
remove_profile id [] = []
remove_profile id (p ∷ rest) =
    let kept = remove_profile id rest in if equal_bytes p.id id then rest else p ∷ kept

module _ (keychain : Keychain) where
  pub record HostStore : Type 0 where
    pub profiles : List HostProfile
    pub secrets : keychain.State

  abbrev pub store_one : List ℕ → SecretKind → List ℕ → keychain.State → keychain.State
  store_one id kind secret secrets =
      if is_empty secret then secrets else keychain.store secrets id kind secret

  unfoldable pub save_secrets : HostProfile → keychain.State → keychain.State
  save_secrets p secrets =
      if not keychain.is_available
      then secrets
      else store_one p.id passphrase p.key_passphrase (store_one p.id password p.password secrets)

  -- `uuid` is what `QUuid::createUuid` would give.
  unfoldable pub add : (uuid : List ℕ) → HostProfile → HostStore → HostStore × List Signal
  unfolding save_secrets
  add uuid profile s =
      let p = if is_empty profile.id then record profile { id = uuid } else profile in
      let profiles = s.profiles ++ without_secrets p ∷ [] in
      (
        record { profiles = profiles; secrets = save_secrets p s.secrets },
        saved profiles ∷ profile_added p.id ∷ changed ∷ [],
      )

  unfoldable pub update : HostProfile → HostStore → HostStore × List Signal
  unfolding save_secrets profile_by_id replace_profile
  update p s = elim (profile_by_id p.id s.profiles) [
    | none ↦ (s, [])
    | some old ↦
        let profiles = replace_profile p.id (without_secrets p) s.profiles in
        (
          record { profiles = profiles; secrets = save_secrets p s.secrets },
          saved profiles ∷ profile_updated p.id ∷ changed ∷ [],
        )
  ]

  unfoldable pub remove : List ℕ → HostStore → HostStore × List Signal
  unfolding profile_by_id remove_profile
  remove id s = elim (profile_by_id id s.profiles) [
    | none ↦ (s, [])
    | some old ↦
        let profiles = remove_profile id s.profiles in
        (
          record { profiles = profiles; secrets = keychain.remove_all s.secrets id },
          saved profiles ∷ profile_removed id ∷ changed ∷ [],
        )
  ]

  -- A secret in place of what the profile has.
  abbrev pub or_else : Option (List ℕ) → List ℕ → List ℕ
  or_else none kept = kept
  or_else (some secret) kept = secret

  unfoldable pub with_secrets : List ℕ → HostStore → HostProfile
  unfolding profile_by_id
  with_secrets id s = elim (profile_by_id id s.profiles) [
    | none ↦ default_profile
    | some p ↦ record p {
      password = or_else (keychain.retrieve s.secrets id password) p.password;
      key_passphrase = or_else (keychain.retrieve s.secrets id passphrase) p.key_passphrase;
    }
  ]

-- The loop of `load`: a profile without a host is left out, one without an identifier is given the
-- next. `none` is an element that is not an object.
unfoldable pub load_profiles :
    (qt : QtJson) → (uuid : ℕ → List ℕ) → ℕ → List (Option qt.Object) → List HostProfile
unfolding from_json
load_profiles qt uuid n [] = []
load_profiles qt uuid n (none ∷ rest) = load_profiles qt uuid n rest
load_profiles qt uuid n (some o ∷ rest) =
    let read = from_json qt o in
    let unnamed = is_empty read.id in
    let p = if unnamed then record read { id = uuid n } else read in
    let later = load_profiles qt uuid (if unnamed then n + 1 else n) rest in
    if is_empty p.hostname then later else p ∷ later

-- The array that `save` writes.
unfoldable pub save_profiles : (qt : QtJson) → List HostProfile → List (Option qt.Object)
unfolding to_json
save_profiles qt profiles = map (λ p. some (to_json qt p)) profiles
