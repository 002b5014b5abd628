-- ===== src/Tests/Stores.antt =====
-- The theorems on src/model/HostStore.cpp and src/ssh/SshTypes.cpp on one host.
use ar_term.Prelude.{
  ◌⊎◌, ◌||◌, ℕ, ◌≡◌, refl, Bool, true, false, ◌&&◌, if◌then◌else◌, arith, Option, none, some, List,
  [], ◌∷◌, All, equal_bytes,
}
use ar_term.Prelude.Int.{ℤ, pos}
use ar_term.Hosts.{public_key, password_method, HostProfile, default_profile}
use ar_term.Hosts.Auth.{
  auth_order, has_repeats, contains, satisfies, is_asked, starts_with, auth_order_lem,
}
use ar_term.Hosts.Json.{Name, same_name, QtJson, IsJson}
use ar_term.Hosts.Store.{
  SecretKind, Keychain, HostStore, profile_by_id, add, with_secrets, load_profiles, save_profiles,
}
use ar_term.Hosts.Secrets.{IsBare, opened, added, History-IsBare}
use ar_term.Hosts.Saving.{IsSavable, load_profiles-save_profiles}
use ar_term.Hosts.Lookup.{same_kind, IsKeychain, with_secrets-add}
use ar_term.Hosts.Import.{QtLine, Surroundings, import_from_ssh_config}
use ar_term.Hosts.Repeat.{import_from_ssh_config-repeat}

abbrev server : HostProfile
server = record default_profile {
  id = b'1' ∷ [];
  hostname = b'h' ∷ [];
  preferred_auth = public_key;
}

abbrev server_with_secrets : HostProfile
server_with_secrets = record server { password = b'p' ∷ [] }

auth_order_lem_example :
    (has_repeats (auth_order server_with_secrets) ≡ false)
    × (satisfies server_with_secrets password_method ≡ true
        → contains password_method (auth_order server_with_secrets) ≡ true)
    × (satisfies server_with_secrets password_method ≡ false
        → contains password_method (auth_order server_with_secrets) ≡ true
        → (is_asked password_method ≡ true)
          × ((password_method ≡ server_with_secrets.preferred_auth)
              ⊎ (auth_order server_with_secrets ≡ password_method ∷ [])))
    × (satisfies server_with_secrets server_with_secrets.preferred_auth
            || is_asked server_with_secrets.preferred_auth
          ≡ true
        → starts_with server_with_secrets.preferred_auth (auth_order server_with_secrets) ≡ true)
auth_order_lem_example = auth_order_lem server_with_secrets password_method

-- A keychain that keeps everything, as a function.
abbrev keychain : Keychain
keychain = record {
  State = List ℕ → SecretKind → Option (List ℕ);
  is_available = true;
  store = λ s id kind secret other wanted.
      if equal_bytes id other && same_kind kind wanted then some secret else s other wanted;
  retrieve = λ s id kind. s id kind;
  remove_all = λ s id other wanted. if equal_bytes id other then none else s other wanted;
}

keychain-IsKeychain : IsKeychain keychain
keychain-IsKeychain = record {
  available = refl;
  retrieve_store = λ s id other kind wanted secret. refl;
}

abbrev empty_store : HostStore keychain
empty_store = record { profiles = []; secrets = λ id kind. none }

History-IsBare_example : All IsBare (add keychain [] server_with_secrets empty_store).0.profiles
History-IsBare_example =
    History-IsBare keychain (add keychain [] server_with_secrets empty_store).0
      (added [] server_with_secrets empty_store (opened (λ id kind. none)))

with_secrets-add_example :
    with_secrets keychain server_with_secrets.id (add keychain [] server_with_secrets empty_store).0
    ≡ server_with_secrets
unfolding profile_by_id
with_secrets-add_example =
    with_secrets-add keychain keychain-IsKeychain [] server_with_secrets empty_store refl refl refl
      refl

-- A value as all that it can be read as, and an object as a function.
record Value : Type 0 where
  text : List ℕ
  number : ℤ
  flag : Bool

abbrev json : QtJson
json = record {
  Object = Name → Value;
  Value = Value;
  empty = λ name. record { text = []; number = pos 0; flag = false };
  insert = λ o k v l. if same_name k l then v else o l;
  value = λ o k. o k;
  of_string = λ s. record { text = s; number = pos 0; flag = false };
  of_int = λ n. record { text = []; number = n; flag = false };
  of_bool = λ b. record { text = []; number = pos 0; flag = b };
  to_string = λ v. v.text;
  to_int = λ v d. v.number;
  to_bool = λ v d. v.flag;
}

json-IsJson : IsJson json
json-IsJson = record {
  value_insert = λ o k l v. refl;
  string_back = λ s. refl;
  int_back = λ n d. refl;
  bool_back = λ b d. refl;
}

server-IsSavable : IsSavable server
server-IsSavable = record {
  bare = (refl, refl);
  named = refl;
  hosted = refl;
  port_lt = omega arith;
}

load_profiles-save_profiles_example :
    load_profiles json (λ n. []) 0 (save_profiles json (server ∷ [])) ≡ server ∷ []
load_profiles-save_profiles_example =
    load_profiles-save_profiles json (λ n. []) 0 (server ∷ []) json-IsJson (server-IsSavable, tt)

-- Lines that are cut at their first space.
first_word : List ℕ → List ℕ
first_word [] = []
first_word (c ∷ cs) =
    let rest = first_word cs in if equal_bytes (c ∷ []) (0x20 ∷ []) then [] else c ∷ rest

other_words : List ℕ → List ℕ
other_words [] = []
other_words (c ∷ cs) =
    let rest = other_words cs in if equal_bytes (c ∷ []) (0x20 ∷ []) then cs else rest

abbrev lines_of : QtLine
lines_of = record {
  trimmed = λ line. line;
  without_equals = λ line. line;
  first_section = first_word;
  later_sections = other_words;
  to_lower = λ word. word;
  to_uint = λ digits. 22;
  equal_without_case = equal_bytes;
}

abbrev surroundings : Surroundings
surroundings = record { user = b'u' ∷ []; imported_group = b'g' ∷ []; uuid = λ n. n ∷ [] }

abbrev config : List (List ℕ)
config =
    (b'h' ∷ b'o' ∷ b's' ∷ b't' ∷ 0x20 ∷ b'a' ∷ [])
    ∷ (b'h' ∷ b'o' ∷ b's' ∷ b't' ∷ 0x20 ∷ b'b' ∷ [])
    ∷ []

import_from_ssh_config-repeat_example :
    let first = import_from_ssh_config surroundings lines_of config 0 [] in
    let second = import_from_ssh_config surroundings lines_of config 2 first.profiles in
    (second.profiles ≡ first.profiles) × (second.imported ≡ 0)
import_from_ssh_config-repeat_example =
    import_from_ssh_config-repeat surroundings lines_of config 0 2 []
