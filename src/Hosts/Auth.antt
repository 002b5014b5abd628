-- ===== src/Hosts/Auth.antt =====
-- `HostProfile::authOrder` of src/ssh/SshTypes.cpp.
use ar_term.Prelude.{
  ◌≡◌, refl, inl, inr, ◌⊎◌, Bool, true, false, not, ◌||◌, if◌then◌else◌, arith, List, [], ◌∷◌, ◌++◌,
  remove_if,
}
use ar_term.Hosts.{
  AuthMethod, agent, public_key, password_method, keyboard_interactive, HostProfile, is_empty,
}

abbrev pub same_method : AuthMethod → AuthMethod → Bool
same_method agent agent = true
same_method public_key public_key = true
same_method password_method password_method = true
same_method keyboard_interactive keyboard_interactive = true
same_method _ _ = false

abbrev pub contains : AuthMethod → List AuthMethod → Bool
contains m [] = false
contains m (n ∷ rest) = same_method m n || contains m rest

-- The lambda `push`.
abbrev pub push : AuthMethod → List AuthMethod → List AuthMethod
push m order = if contains m order then order else order ++ m ∷ []

abbrev pub remove_all : AuthMethod → List AuthMethod → List AuthMethod
remove_all m order = remove_if (same_method m) order

abbrev or_password : List AuthMethod → List AuthMethod
or_password [] = password_method ∷ []
or_password order = order

-- The body, by the preferred method and by what the profile has.
unfoldable order_of : AuthMethod → (use_agent has_key has_password : Bool) → List AuthMethod
order_of preferred use_agent has_key has_password =
    let first = preferred ∷ [] in
    let with_agent = if use_agent then push agent first else first in
    let with_key = if has_key then push public_key with_agent else with_agent in
    let with_password =
      if has_password
      then push keyboard_interactive (push password_method with_key)
      else with_key in
    let no_agent = if not use_agent then remove_all agent with_password else with_password in
    or_password (if not has_key then remove_all public_key no_agent else no_agent)

unfoldable pub auth_order : HostProfile → List AuthMethod
unfolding order_of
auth_order p =
    order_of p.preferred_auth p.use_agent (not (is_empty p.private_key_path))
      (not (is_empty p.password))

abbrev pub has_repeats : List AuthMethod → Bool
has_repeats [] = false
has_repeats (m ∷ rest) = contains m rest || has_repeats rest

-- The methods that a profile satisfies: the agent if it is used, the public key if there is one, and
-- both password methods if there is a password.
abbrev is_satisfied : (use_agent has_key has_password : Bool) → AuthMethod → Bool
is_satisfied use_agent has_key has_password agent = use_agent
is_satisfied use_agent has_key has_password public_key = has_key
is_satisfied use_agent has_key has_password password_method = has_password
is_satisfied use_agent has_key has_password keyboard_interactive = has_password

-- The methods for which the user can be asked.
abbrev pub is_asked : AuthMethod → Bool
is_asked agent = false
is_asked public_key = false
is_asked password_method = true
is_asked keyboard_interactive = true

abbrev pub starts_with : AuthMethod → List AuthMethod → Bool
starts_with m [] = false
starts_with m (n ∷ rest) = same_method m n

order_of-once : (a : AuthMethod) (u k w : Bool) → has_repeats (order_of a u k w) ≡ false
unfolding order_of
order_of-once a u k w = ground arith

order_of_complete :
    (a : AuthMethod) (u k w : Bool) (m : AuthMethod)
    → is_satisfied u k w m ≡ true
    → contains m (order_of a u k w) ≡ true
unfolding order_of
order_of_complete a u k w m h = ground (arith, h)

order_of_sound :
    (a : AuthMethod) (u k w : Bool) (m : AuthMethod)
    → is_satisfied u k w m ≡ false
    → contains m (order_of a u k w) ≡ true
    → (is_asked m ≡ true) × ((m ≡ a) ⊎ (order_of a u k w ≡ password_method ∷ []))
unfolding order_of
order_of_sound a u k w agent h e = absurd (ground (arith, h, e))
order_of_sound a u k w public_key h e = absurd (ground (arith, h, e))
order_of_sound agent u k w password_method h e = (refl, inr (ground (arith, h, e)))
order_of_sound public_key u k w password_method h e = (refl, inr (ground (arith, h, e)))
order_of_sound password_method u k w password_method h e = (refl, inl refl)
order_of_sound keyboard_interactive u k w password_method h e = absurd (ground (arith, h, e))
order_of_sound agent u k w keyboard_interactive h e = absurd (ground (arith, h, e))
order_of_sound public_key u k w keyboard_interactive h e = absurd (ground (arith, h, e))
order_of_sound password_method u k w keyboard_interactive h e = absurd (ground (arith, h, e))
order_of_sound keyboard_interactive u k w keyboard_interactive h e = (refl, inl refl)

order_of-first :
    (a : AuthMethod) (u k w : Bool)
    → is_satisfied u k w a || is_asked a ≡ true
    → starts_with a (order_of a u k w) ≡ true
unfolding order_of
order_of-first a u k w h = ground (arith, h)

-- What the profile holds.
abbrev pub satisfies : HostProfile → AuthMethod → Bool
satisfies p m =
    is_satisfied p.use_agent (not (is_empty p.private_key_path)) (not (is_empty p.password)) m

-- No method comes twice in the order. Every method that the profile satisfies is in it. A method in it
-- that the profile does not satisfy is a password method, and it is the preferred one or the
-- password that stands alone. The preferred method is the first if the profile satisfies it, and a
-- password method that is preferred also if it does not.
pub auth_order_lem :
    (p : HostProfile) (m : AuthMethod)
    → (has_repeats (auth_order p) ≡ false)
      × (satisfies p m ≡ true → contains m (auth_order p) ≡ true)
      × (satisfies p m ≡ false
          → contains m (auth_order p) ≡ true
          → (is_asked m ≡ true) × ((m ≡ p.preferred_auth) ⊎ (auth_order p ≡ password_method ∷ [])))
      × (satisfies p p.preferred_auth || is_asked p.preferred_auth ≡ true
          → starts_with p.preferred_auth (auth_order p) ≡ true)
unfolding auth_order
auth_order_lem p m =
    let k = not (is_empty p.private_key_path) in
    let w = not (is_empty p.password) in
    let a = p.preferred_auth in
    (
      order_of-once a p.use_agent k w,
      order_of_complete a p.use_agent k w m,
      order_of_sound a p.use_agent k w m,
      order_of-first a p.use_agent k w,
    )
