-- ===== src/Hosts/Lookup.antt =====
-- The secrets of `HostStore` in src/model/HostStore.cpp, found again in the keychain.
use ar_term.Prelude.{
  ℕ, ◌≡◌, refl, ◌∙◌, ap, Bool, true, false, ◌&&◌, if◌then◌else◌, inl, inr, Bool-cases, arith, none,
  some, List, [], ◌∷◌, ◌++◌, equal_bytes, equal_bytes_refl,
}
use ar_term.Hosts.{HostProfile, without_secrets, is_empty}
use ar_term.Hosts.Store.{
  SecretKind, password, passphrase, Keychain, HostStore, profile_by_id, save_secrets, add,
  with_secrets, store_one, or_else,
}

abbrev pub same_kind : SecretKind → SecretKind → Bool
same_kind password password = true
same_kind passphrase passphrase = true
same_kind _ _ = false

-- A keychain that keeps what it is given, under an identifier and a kind.
pub record IsKeychain (keychain : Keychain) : Type 0 where
  pub available : keychain.is_available ≡ true
  pub retrieve_store :
      (s : keychain.State) (id other : List ℕ) (kind wanted : SecretKind) (secret : List ℕ)
      → keychain.retrieve (keychain.store s id kind secret) other wanted ≡ (
          if equal_bytes id other && same_kind kind wanted
          then some secret
          else keychain.retrieve s other wanted)

profile_by_id-append :
    (id : List ℕ) (p : HostProfile) (ps : List HostProfile)
    → profile_by_id id ps ≡ none
    → equal_bytes p.id id ≡ true
    → profile_by_id id (ps ++ p ∷ []) ≡ some p
unfolding profile_by_id
profile_by_id-append id p [] e same = ground (arith, same)
profile_by_id-append id p (q ∷ ps) e same = elim (Bool-cases (equal_bytes q.id id)) [
  | inl found ↦ absurd (ground (arith, e, found))
  | inr other ↦ rw other (profile_by_id-append id p ps (ground (arith, e, other)) same)
]

module _ (keychain : Keychain) (h : IsKeychain keychain) where
  -- A secret that is not empty is found, an empty one is not stored.
  or_else-same :
      (id : List ℕ) (kind : SecretKind) (secret : List ℕ) (s : keychain.State)
      → same_kind kind kind ≡ true
      → keychain.retrieve s id kind ≡ none
      → or_else keychain (keychain.retrieve (store_one keychain id kind secret s) id kind) []
        ≡ secret
  or_else-same id kind [] s same e = rw e refl
  or_else-same id kind (c ∷ cs) s same e =
      rw (h.retrieve_store s id id kind kind (c ∷ cs), equal_bytes_refl id, same) refl

  retrieve-other :
      (id : List ℕ) (kind wanted : SecretKind) (secret : List ℕ) (s : keychain.State)
      → same_kind kind wanted ≡ false
      → keychain.retrieve (store_one keychain id kind secret s) id wanted
        ≡ keychain.retrieve s id wanted
  retrieve-other id kind wanted [] s differ = refl
  retrieve-other id kind wanted (c ∷ cs) s differ =
      rw (h.retrieve_store s id id kind wanted (c ∷ cs), equal_bytes_refl id, differ) refl

  save_secrets-available :
      (p : HostProfile) (s : keychain.State)
      → save_secrets keychain p s
        ≡ store_one keychain p.id passphrase p.key_passphrase
            (store_one keychain p.id password p.password s)
  unfolding save_secrets
  save_secrets-available p s = rw h.available refl

  add-named :
      (uuid : List ℕ) (p : HostProfile) (s : HostStore keychain)
      → is_empty p.id ≡ false
      → (add keychain uuid p s).0 ≡ record {
        profiles = s.profiles ++ without_secrets p ∷ [];
        secrets = save_secrets keychain p s.secrets;
      }
  unfolding add
  add-named uuid p s named = rw named refl

  with_secrets-found :
      (id : List ℕ) (s : HostStore keychain) (p : HostProfile)
      → profile_by_id id s.profiles ≡ some p
      → with_secrets keychain id s ≡ record p {
        password = or_else keychain (keychain.retrieve s.secrets id password) p.password;
        key_passphrase =
            or_else keychain (keychain.retrieve s.secrets id passphrase) p.key_passphrase;
      }
  unfolding with_secrets
  with_secrets-found id s p e = rw (e, with_secrets) refl

  -- A profile with an identifier that neither the store nor the keychain knows, added while the keychain is
  -- available, is found again under it with both its secrets.
  pub with_secrets-add :
      (uuid : List ℕ) (p : HostProfile) (s : HostStore keychain)
      → is_empty p.id ≡ false
      → profile_by_id p.id s.profiles ≡ none
      → keychain.retrieve s.secrets p.id password ≡ none
      → keychain.retrieve s.secrets p.id passphrase ≡ none
      → with_secrets keychain p.id (add keychain uuid p s).0 ≡ p
  with_secrets-add uuid p s named fresh no_password no_passphrase =
      let found =
        profile_by_id-append p.id (without_secrets p) s.profiles fresh (equal_bytes_refl p.id) in
      let saved = save_secrets-available p s.secrets in
      let one =
        retrieve-other p.id passphrase password p.key_passphrase
          (store_one keychain p.id password p.password s.secrets) refl in
      let two = retrieve-other p.id password passphrase p.password s.secrets refl in
      let first = or_else-same p.id password p.password s.secrets refl no_password in
      let second =
        or_else-same p.id passphrase p.key_passphrase
          (store_one keychain p.id password p.password s.secrets) refl (two ∙ no_passphrase) in
      let after : HostStore keychain = record {
        profiles = s.profiles ++ without_secrets p ∷ [];
        secrets = save_secrets keychain p s.secrets;
      } in
      ap (with_secrets keychain p.id) (add-named uuid p s named)
      ∙ with_secrets-found p.id after (without_secrets p) found
      ∙ rw (saved, one, first, second) refl
