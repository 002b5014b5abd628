-- ===== src/Hosts/Permissions.antt =====
-- `RemoteFileEntry::permissionString` of src/ssh/SshTypes.cpp. The constants of `sys/stat.h` are the
-- bits of POSIX.
use ar_term.Prelude.{
  ℕ, ◌+◌, ◌*◌, ◌/◌, ◌%◌, ◌≡◌, refl, Bool, false, ◌==◌, if◌then◌else◌, inl, inr, Bool-cases, arith,
  List, [], ◌∷◌,
}

pub record RemoteFileEntry : Type 0 where
  pub permissions : ℕ
  pub is_directory : Bool
  pub is_symlink : Bool

-- `bits` and `letters`, side by side.
abbrev bits : List (ℕ × ℕ)
bits =
    (0o400, b'r')
    ∷ (0o200, b'w')
    ∷ (0o100, b'x')
    ∷ (0o40, b'r')
    ∷ (0o20, b'w')
    ∷ (0o10, b'x')
    ∷ (0o4, b'r')
    ∷ (0o2, b'w')
    ∷ (0o1, b'x')
    ∷ []

-- `permissions & bit` for a single bit.
abbrev has_bit : ℕ → ℕ → Bool
has_bit permissions bit = permissions / bit % 2 == 1

-- The loop over the bits.
unfoldable render_bits : ℕ → List (ℕ × ℕ) → List ℕ
render_bits permissions [] = []
render_bits permissions ((bit, letter) ∷ rest) =
    let tail = render_bits permissions rest in
    (if has_bit permissions bit then letter else b'-') ∷ tail

unfoldable permission_string : RemoteFileEntry → List ℕ
unfolding render_bits
permission_string e =
    (if e.is_symlink then b'l' else if e.is_directory then b'd' else b'-')
    ∷ render_bits e.permissions bits

-- What `chmod` makes of such letters: the sum of the bits that are not a dash.
abbrev value_of : List ℕ → List (ℕ × ℕ) → ℕ
value_of (c ∷ cs) ((bit, letter) ∷ rest) = (if c == b'-' then 0 else bit) + value_of cs rest
value_of _ _ = 0

letter_value :
    (permissions bit letter : ℕ)
    → (letter == b'-') ≡ false
    → (if (if has_bit permissions bit then letter else b'-') == b'-' then 0 else bit)
      ≡ permissions / bit % 2 * bit
letter_value permissions bit letter e = elim (Bool-cases (has_bit permissions bit)) [
  | inl set ↦
      let one : permissions / bit % 2 ≡ 1 = ground (arith, set) in rw (set, e, one) (omega arith)
  | inr clear ↦
      let zero_bit : permissions / bit % 2 ≡ 0 = ground (arith, clear) in
      rw (clear, zero_bit) (omega arith)
]

-- The letters behind the first, read as bits, are the nine bits of the permissions.
value_of-permission_string :
    (e : RemoteFileEntry)
    → (c : ℕ) × (cs : List ℕ) × (permission_string e ≡ c ∷ cs)
      × (value_of cs bits ≡ e.permissions % 0o1000)
unfolding permission_string render_bits
value_of-permission_string e =
    let m = e.permissions in
    (
      _,
      _,
      refl,
      omega (
        arith,
        letter_value m 0o400 b'r' refl,
        letter_value m 0o200 b'w' refl,
        letter_value m 0o100 b'x' refl,
        letter_value m 0o40 b'r' refl,
        letter_value m 0o20 b'w' refl,
        letter_value m 0o10 b'x' refl,
        letter_value m 0o4 b'r' refl,
        letter_value m 0o2 b'w' refl,
        letter_value m 0o1 b'x' refl,
      ),
    )
