-- ===== src/Hosts/Saving.antt =====
-- The host list of `HostStore` in src/model/HostStore.cpp, saved and loaded again.
use ar_term.Prelude.{
  ℕ, ◌^◌, ◌<◌, ◌≡◌, refl, ◌∙◌, ap, false, arith, Option, some, List, [], ◌∷◌, All,
}
use ar_term.Hosts.{HostProfile, without_secrets, is_empty}
use ar_term.Hosts.Json.{QtJson, IsJson, to_json, from_json, from_json-to_json}
use ar_term.Hosts.Store.{load_profiles, save_profiles}
use ar_term.Hosts.Secrets.{IsBare}

-- What a file that was saved is made of.
pub record IsSavable (p : HostProfile) : Type 0 where
  pub bare : IsBare p
  pub named : is_empty p.id ≡ false
  pub hosted : is_empty p.hostname ≡ false
  pub port_lt : p.port < 2 ^ 16

bare_same : (p : HostProfile) → IsBare p → without_secrets p ≡ p
bare_same p h = ground (arith, h)

-- An object that is read with an identifier and a host.
load-read :
    (qt : QtJson) (uuid : ℕ → List ℕ) (n : ℕ) (o : qt.Object) (os : List (Option qt.Object))
    (p : HostProfile)
    → from_json qt o ≡ p
    → is_empty p.id ≡ false
    → is_empty p.hostname ≡ false
    → load_profiles qt uuid n (some o ∷ os) ≡ p ∷ load_profiles qt uuid n os
unfolding load_profiles
load-read qt uuid n o os p e named hosted =
    let named_read : is_empty (from_json qt o).id ≡ false =
      ap (λ (q : HostProfile). is_empty q.id) e ∙ named in
    let hosted_read : is_empty (from_json qt o).hostname ≡ false =
      ap (λ (q : HostProfile). is_empty q.hostname) e ∙ hosted in
    ground (arith, e, named_read, hosted_read)

-- Profiles with an identifier, a host and a 16-bit port and without secrets, saved and loaded
-- again, are the same in the same order.
pub load_profiles-save_profiles :
    (qt : QtJson) (uuid : ℕ → List ℕ) (n : ℕ) (ps : List HostProfile)
    → IsJson qt
    → All IsSavable ps
    → load_profiles qt uuid n (save_profiles qt ps) ≡ ps
unfolding load_profiles save_profiles
load_profiles-save_profiles qt uuid n [] json h = refl
load_profiles-save_profiles qt uuid n (p ∷ ps) json h =
    let back : from_json qt (to_json qt p) ≡ p =
      from_json-to_json qt p json h.0.port_lt ∙ bare_same p h.0.bare in
    let rest = load_profiles-save_profiles qt uuid n ps json h.1 in
    load-read qt uuid n (to_json qt p) (save_profiles qt ps) p back h.0.named h.0.hosted
    ∙ ap (p ∷◌) rest
