-- ===== src/Hosts.antt =====
-- The host profiles of src/ssh/SshTypes.hpp and src/ssh/SshTypes.cpp. A text is the list of its
-- UTF-16 units, a `quint16` a number.
pub mod Auth
pub mod Permissions
pub mod Json
pub mod Store
pub mod Lookup
pub mod Saving
pub mod Secrets
pub mod Import
pub mod Known
pub mod Repeat
use ar_term.Prelude.{ℕ, Bool, true, false, not, ◌&&◌, if◌then◌else◌, List, [], ◌∷◌, ◌++◌}
use ar_term.Prelude.Int.{ℤ, pos}

pub data AuthMethod : Type 0 where
  agent public_key password_method keyboard_interactive : AuthMethod

pub data TransferBackend : Type 0 where
  sftp scp : TransferBackend

pub record HostProfile : Type 0 where
  pub id : List ℕ
  pub label : List ℕ
  pub hostname : List ℕ
  pub port : ℕ
  pub username : List ℕ
  pub group : List ℕ
  pub color_tag : List ℕ
  pub preferred_auth : AuthMethod
  pub private_key_path : List ℕ
  pub use_agent : Bool
  pub password : List ℕ
  pub key_passphrase : List ℕ
  pub startup_directory : List ℕ
  pub startup_command : List ℕ
  pub open_file_browser : Bool
  pub keep_alive_seconds : ℤ
  pub compression : Bool
  pub strict_host_key_checking : Bool
  pub transfer_backend : TransferBackend

abbrev pub default_profile : HostProfile
default_profile = record {
  id = [];
  label = [];
  hostname = [];
  port = 22;
  username = [];
  group = [];
  color_tag = [];
  preferred_auth = agent;
  private_key_path = [];
  use_agent = true;
  password = [];
  key_passphrase = [];
  startup_directory = [];
  startup_command = [];
  open_file_browser = true;
  keep_alive_seconds = pos 30;
  compression = false;
  strict_host_key_checking = true;
  transfer_backend = sftp;
}

abbrev pub is_empty : List ℕ → Bool
is_empty [] = true
is_empty _ = false

unfoldable pub display_name : HostProfile → List ℕ
display_name p =
    if not (is_empty p.label)
    then p.label
    else if is_empty p.username
    then p.hostname
    else p.username ++ b'@' ∷ p.hostname

-- What `add` and `update` do to a profile before they keep it.
abbrev pub without_secrets : HostProfile → HostProfile
without_secrets p = record p { password = []; key_passphrase = [] }
