-- ===== src/Hosts/Import.antt =====
-- `importFromSshConfig` of src/model/HostStore.cpp. What Qt does to a line is a parameter.
use ar_term.Prelude.{
  ℕ, ◌+◌, ◌%◌, ◌^◌, Bool, true, false, not, ◌&&◌, ◌||◌, ◌==◌, if◌then◌else◌, List, [], ◌∷◌, ◌++◌,
  equal_bytes,
}
use ar_term.Hosts.{public_key, HostProfile, default_profile, is_empty}

-- `trimmed`, `replace('=', ' ')`, `section(' ', 0, 0)`, `section(' ', 1)`, `toLower`, `toUInt` and a
-- comparison without case.
pub record QtLine : Type 0 where
  pub trimmed : List ℕ → List ℕ
  pub without_equals : List ℕ → List ℕ
  pub first_section : List ℕ → List ℕ
  pub later_sections : List ℕ → List ℕ
  pub to_lower : List ℕ → List ℕ
  pub to_uint : List ℕ → ℕ
  pub equal_without_case : List ℕ → List ℕ → Bool

abbrev pub word_host : List ℕ
word_host = b'h' ∷ b'o' ∷ b's' ∷ b't' ∷ []

abbrev word_host_name : List ℕ
word_host_name = b'h' ∷ b'o' ∷ b's' ∷ b't' ∷ b'n' ∷ b'a' ∷ b'm' ∷ b'e' ∷ []

abbrev word_user : List ℕ
word_user = b'u' ∷ b's' ∷ b'e' ∷ b'r' ∷ []

abbrev word_port : List ℕ
word_port = b'p' ∷ b'o' ∷ b'r' ∷ b't' ∷ []

abbrev word_identity_file : List ℕ
word_identity_file =
    b'i' ∷ b'd' ∷ b'e' ∷ b'n' ∷ b't' ∷ b'i' ∷ b't' ∷ b'y' ∷ b'f' ∷ b'i' ∷ b'l' ∷ b'e' ∷ []

abbrev word_compression : List ℕ
word_compression = b'c' ∷ b'o' ∷ b'm' ∷ b'p' ∷ b'r' ∷ b'e' ∷ b's' ∷ b's' ∷ b'i' ∷ b'o' ∷ b'n' ∷ []

abbrev word_yes : List ℕ
word_yes = b'y' ∷ b'e' ∷ b's' ∷ []

-- What the surroundings give: the user's name, the word for imported hosts and the identifiers.
pub record Surroundings : Type 0 where
  pub user : List ℕ
  pub imported_group : List ℕ
  pub uuid : ℕ → List ℕ

-- The variables of the function and the profiles of the store; `made` counts the identifiers.
pub record Import : Type 0 where
  pub profiles : List HostProfile
  pub imported : ℕ
  pub current : HostProfile
  pub in_host_block : Bool
  pub made : ℕ

abbrev pub begin : ℕ → List HostProfile → Import
begin made profiles = record {
  profiles = profiles;
  imported = 0;
  current = default_profile;
  in_host_block = false;
  made = made;
}

abbrev pub same_endpoint : HostProfile → HostProfile → Bool
same_endpoint a b =
    equal_bytes a.hostname b.hostname && (a.port == b.port && equal_bytes a.username b.username)

abbrev pub is_known : HostProfile → List HostProfile → Bool
is_known p [] = false
is_known p (q ∷ rest) = same_endpoint q p || is_known p rest

abbrev pub has_character : ℕ → List ℕ → Bool
has_character c [] = false
has_character c (d ∷ rest) = c == d || has_character c rest

abbrev pub starts_with : ℕ → List ℕ → Bool
starts_with c [] = false
starts_with c (d ∷ rest) = c == d

module _ (env : Surroundings) (qt : QtLine) where
  -- The profile that `flush` appends.
  abbrev pub finished : Import → HostProfile
  finished st = record st.current { id = env.uuid st.made; group = env.imported_group }

  -- The lambda `flush`.
  unfoldable pub flush : Import → Import
  flush st =
      if not st.in_host_block || is_empty st.current.hostname
      then st
      else if is_known st.current st.profiles
      then record st { current = default_profile }
      else record st {
        profiles = st.profiles ++ finished st ∷ [];
        imported = st.imported + 1;
        current = default_profile;
        made = st.made + 1;
      }

  -- `Host`
  unfoldable pub open_block : List ℕ → Import → Import
  open_block value st =
      if has_character b'*' value || has_character b'?' value
      then record st { in_host_block = false }
      else let name = qt.first_section value in
        record st {
          in_host_block = true;
          current = record default_profile { label = name; hostname = name; username = env.user };
        }

  -- The other keywords inside a block.
  unfoldable pub set_option : (keyword value : List ℕ) → HostProfile → HostProfile
  set_option keyword value p =
      if equal_bytes keyword word_host_name
      then record p { hostname = value }
      else if equal_bytes keyword word_user
      then record p { username = value }
      else if equal_bytes keyword word_port
      then record p { port = qt.to_uint value % 2 ^ 16 }
      else if equal_bytes keyword word_identity_file
      then record p { private_key_path = value; preferred_auth = public_key }
      else if equal_bytes keyword word_compression
      then record p { compression = qt.equal_without_case value word_yes }
      else p

  -- One keyword with its value.
  unfoldable pub import_option : (keyword value : List ℕ) → Import → Import
  unfolding flush open_block set_option
  import_option keyword value st =
      if is_empty value
      then st
      else if equal_bytes keyword word_host
      then open_block value (flush st)
      else if not st.in_host_block
      then st
      else record st { current = set_option keyword value st.current }

  -- One round of the loop.
  unfoldable pub import_line : List ℕ → Import → Import
  unfolding import_option
  import_line line st =
      let text = qt.trimmed line in
      let spaced = qt.without_equals text in
      if is_empty text || starts_with b'#' text
      then st
      else import_option (qt.to_lower (qt.first_section spaced))
          (qt.trimmed (qt.later_sections spaced)) st

  unfoldable pub import_lines : List (List ℕ) → Import → Import
  unfolding import_line
  import_lines [] st = st
  import_lines (line ∷ rest) st = import_lines rest (import_line line st)

  -- The whole function on a file that could be opened.
  unfoldable pub import_from_ssh_config : List (List ℕ) → ℕ → List HostProfile → Import
  unfolding import_lines flush
  import_from_ssh_config lines made profiles = flush (import_lines lines (begin made profiles))
