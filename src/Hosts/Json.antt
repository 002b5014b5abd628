-- ===== src/Hosts/Json.antt =====
-- `toJson` and `fromJson` of src/model/HostStore.cpp. The JSON classes of Qt are a parameter.
use ar_term.Prelude.{
  ℕ, ◌-◌, ◌%◌, ◌^◌, ◌<◌, ◌≡◌, refl, Bool, true, false, ◌==◌, if◌then◌else◌, arith, List, [], ◌∷◌,
  equal_bytes,
}
use ar_term.Prelude.Int.{ℤ, pos, negsuc}
use ar_term.Hosts.{
  AuthMethod, agent, public_key, password_method, keyboard_interactive, TransferBackend, sftp, scp,
  HostProfile, without_secrets,
}

-- The names of the members of the object.
pub data Name : Type 0 where
  id label hostname port username group color_tag auth private_key_path use_agent : Name
  startup_directory startup_command open_file_browser keep_alive_seconds compression : Name
  strict_host_key_checking transfer_backend : Name

abbrev name_code : Name → ℕ
name_code id = 0
name_code label = 1
name_code hostname = 2
name_code port = 3
name_code username = 4
name_code group = 5
name_code color_tag = 6
name_code auth = 7
name_code private_key_path = 8
name_code use_agent = 9
name_code startup_directory = 10
name_code startup_command = 11
name_code open_file_browser = 12
name_code keep_alive_seconds = 13
name_code compression = 14
name_code strict_host_key_checking = 15
name_code transfer_backend = 16

abbrev pub same_name : Name → Name → Bool
same_name a b = name_code a == name_code b

-- `QJsonObject` and `QJsonValue`; `to_int` and `to_bool` take a default.
pub record QtJson : Type 1 where
  pub Object : Type 0
  pub Value : Type 0
  pub empty : Object
  pub insert : Object → Name → Value → Object
  pub value : Object → Name → Value
  pub of_string : List ℕ → Value
  pub of_int : ℤ → Value
  pub of_bool : Bool → Value
  pub to_string : Value → List ℕ
  pub to_int : Value → ℤ → ℤ
  pub to_bool : Value → Bool → Bool

-- What Qt documents: the last insert under a name is found, and a value is read as it was made.
pub record IsJson (qt : QtJson) : Type 0 where
  pub value_insert :
      (o : qt.Object) (k l : Name) (v : qt.Value)
      → qt.value (qt.insert o k v) l ≡ (if same_name k l then v else qt.value o l)
  pub string_back : (s : List ℕ) → qt.to_string (qt.of_string s) ≡ s
  pub int_back : (n d : ℤ) → qt.to_int (qt.of_int n) d ≡ n
  pub bool_back : (b d : Bool) → qt.to_bool (qt.of_bool b) d ≡ b

abbrev key_agent : List ℕ
key_agent = b'a' ∷ b'g' ∷ b'e' ∷ b'n' ∷ b't' ∷ []

abbrev key_public_key : List ℕ
key_public_key = b'p' ∷ b'u' ∷ b'b' ∷ b'l' ∷ b'i' ∷ b'c' ∷ b'k' ∷ b'e' ∷ b'y' ∷ []

abbrev key_password : List ℕ
key_password = b'p' ∷ b'a' ∷ b's' ∷ b's' ∷ b'w' ∷ b'o' ∷ b'r' ∷ b'd' ∷ []

abbrev key_keyboard_interactive : List ℕ
key_keyboard_interactive =
    b'k' ∷ b'e' ∷ b'y' ∷ b'b' ∷ b'o' ∷ b'a' ∷ b'r' ∷ b'd' ∷ b'-' ∷ b'i' ∷ b'n' ∷ b't' ∷ b'e' ∷ b'r'
    ∷ b'a' ∷ b'c' ∷ b't' ∷ b'i' ∷ b'v' ∷ b'e' ∷ []

unfoldable auth_method_key : AuthMethod → List ℕ
auth_method_key agent = key_agent
auth_method_key public_key = key_public_key
auth_method_key password_method = key_password
auth_method_key keyboard_interactive = key_keyboard_interactive

unfoldable auth_method_from_key : List ℕ → AuthMethod
auth_method_from_key key =
    if equal_bytes key key_public_key
    then public_key
    else if equal_bytes key key_password
    then password_method
    else if equal_bytes key key_keyboard_interactive
    then keyboard_interactive
    else agent

abbrev key_scp : List ℕ
key_scp = b's' ∷ b'c' ∷ b'p' ∷ []

unfoldable transfer_backend_key : TransferBackend → List ℕ
transfer_backend_key scp = key_scp
transfer_backend_key sftp = b's' ∷ b'f' ∷ b't' ∷ b'p' ∷ []

unfoldable transfer_backend_from_key : List ℕ → TransferBackend
transfer_backend_from_key key = if equal_bytes key key_scp then scp else sftp

-- `static_cast<quint16>` of an `int`
unfoldable to_u16 : ℤ → ℕ
to_u16 (pos n) = n % 2 ^ 16
to_u16 (negsuc n) = (2 ^ 16 - 1) - n % 2 ^ 16

module _ (qt : QtJson) where
  unfoldable pub to_json : HostProfile → qt.Object
  unfolding auth_method_key transfer_backend_key
  to_json p =
      let o1 = qt.insert qt.empty id (qt.of_string p.id) in
      let o2 = qt.insert o1 label (qt.of_string p.label) in
      let o3 = qt.insert o2 hostname (qt.of_string p.hostname) in
      let o4 = qt.insert o3 port (qt.of_int (pos p.port)) in
      let o5 = qt.insert o4 username (qt.of_string p.username) in
      let o6 = qt.insert o5 group (qt.of_string p.group) in
      let o7 = qt.insert o6 color_tag (qt.of_string p.color_tag) in
      let o8 = qt.insert o7 auth (qt.of_string (auth_method_key p.preferred_auth)) in
      let o9 = qt.insert o8 private_key_path (qt.of_string p.private_key_path) in
      let o10 = qt.insert o9 use_agent (qt.of_bool p.use_agent) in
      let o11 = qt.insert o10 startup_directory (qt.of_string p.startup_directory) in
      let o12 = qt.insert o11 startup_command (qt.of_string p.startup_command) in
      let o13 = qt.insert o12 open_file_browser (qt.of_bool p.open_file_browser) in
      let o14 = qt.insert o13 keep_alive_seconds (qt.of_int p.keep_alive_seconds) in
      let o15 = qt.insert o14 compression (qt.of_bool p.compression) in
      let o16 = qt.insert o15 strict_host_key_checking (qt.of_bool p.strict_host_key_checking) in
      qt.insert o16 transfer_backend (qt.of_string (transfer_backend_key p.transfer_backend))

  unfoldable pub from_json : qt.Object → HostProfile
  unfolding auth_method_from_key transfer_backend_from_key to_u16
  from_json o = record {
    id = qt.to_string (qt.value o id);
    label = qt.to_string (qt.value o label);
    hostname = qt.to_string (qt.value o hostname);
    port = to_u16 (qt.to_int (qt.value o port) (pos 22));
    username = qt.to_string (qt.value o username);
    group = qt.to_string (qt.value o group);
    color_tag = qt.to_string (qt.value o color_tag);
    preferred_auth = auth_method_from_key (qt.to_string (qt.value o auth));
    private_key_path = qt.to_string (qt.value o private_key_path);
    use_agent = qt.to_bool (qt.value o use_agent) true;
    password = [];
    key_passphrase = [];
    startup_directory = qt.to_string (qt.value o startup_directory);
    startup_command = qt.to_string (qt.value o startup_command);
    open_file_browser = qt.to_bool (qt.value o open_file_browser) true;
    keep_alive_seconds = qt.to_int (qt.value o keep_alive_seconds) (pos 30);
    compression = qt.to_bool (qt.value o compression) false;
    strict_host_key_checking = qt.to_bool (qt.value o strict_host_key_checking) true;
    transfer_backend = transfer_backend_from_key (qt.to_string (qt.value o transfer_backend));
  }

auth_method-back : (a : AuthMethod) → auth_method_from_key (auth_method_key a) ≡ a
unfolding auth_method_from_key auth_method_key
auth_method-back agent = refl
auth_method-back public_key = refl
auth_method-back password_method = refl
auth_method-back keyboard_interactive = refl

transfer_backend-back :
    (b : TransferBackend) → transfer_backend_from_key (transfer_backend_key b) ≡ b
unfolding transfer_backend_from_key transfer_backend_key
transfer_backend-back sftp = refl
transfer_backend-back scp = refl

to_u16-back : (n : ℕ) → n < 2 ^ 16 → to_u16 (pos n) ≡ n
unfolding to_u16
to_u16-back n lt = omega arith

-- A profile with a 16-bit port that is written to an object and read again is as it was, but for
-- the password and the passphrase, which the object does not hold.
pub from_json-to_json :
    (qt : QtJson) (p : HostProfile)
    → IsJson qt
    → p.port < 2 ^ 16
    → from_json qt (to_json qt p) ≡ without_secrets p
unfolding from_json to_json
from_json-to_json qt p h lt =
    simp
      (
        h.value_insert,
        h.string_back,
        h.int_back,
        h.bool_back,
        auth_method-back,
        transfer_backend-back,
        to_u16-back p.port lt,
      )
      refl
