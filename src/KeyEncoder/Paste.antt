-- ===== src/KeyEncoder/Paste.antt =====
-- `encodePaste` of src/terminal/KeyEncoder.cpp.
use ar_term.Prelude.{
  ℕ, ◌≤◌, ◌<◌, ◌≡◌, ◌≢◌, refl, ap, inl, inr, Bool-cases, Bool, true, false, not, ◌&&◌, ltb, ◌==◌,
  if◌then◌else◌, ◌⊎◌, arith, List, [], ◌∷◌, ◌++◌, All, remove_if, All-remove_if,
}

-- `replace(before, after)`, `remove` and `toUtf8`.
pub record QtPaste : Type 0 where
  pub replace : (before after text : List ℕ) → List ℕ
  pub remove : (guard text : List ℕ) → List ℕ
  pub to_utf8 : List ℕ → List ℕ

abbrev paste_start : List ℕ
paste_start = 0x1B ∷ b'[' ∷ b'2' ∷ b'0' ∷ b'0' ∷ b'~' ∷ []

abbrev paste_end : List ℕ
paste_end = 0x1B ∷ b'[' ∷ b'2' ∷ b'0' ∷ b'1' ∷ b'~' ∷ []

-- `unit < 0x20 && unit != '\r' && unit != '\t'`
abbrev is_unsafe : ℕ → Bool
is_unsafe unit = ltb unit 0x20 && not (unit == 0x0D) && not (unit == 0x09)

module _ (qt : QtPaste) where
  unfoldable pub normalise : List ℕ → List ℕ
  normalise text =
      qt.replace (0x0A ∷ []) (0x0D ∷ []) (qt.replace (0x0D ∷ 0x0A ∷ []) (0x0D ∷ []) text)

  -- The text that is encoded.
  unfoldable pub sanitise : List ℕ → Bool → List ℕ
  unfolding normalise
  sanitise text bracketed =
      if bracketed
      then qt.remove paste_end (normalise text)
      else remove_if is_unsafe (normalise text)

  unfoldable pub encode_paste : List ℕ → Bool → List ℕ
  unfolding sanitise
  encode_paste text bracketed =
      let bytes = qt.to_utf8 (sanitise text bracketed) in
      if bracketed then paste_start ++ (bytes ++ paste_end) else bytes

-- No control below 0x20 but a carriage return and a tab.
abbrev pub IsSafe : ℕ → Type 0
IsSafe c = (0x20 ≤ c) ⊎ (c ≡ 0x0D) ⊎ (c ≡ 0x09)

-- UTF-8 has an ASCII byte only where the text has that character.
pub record IsUtf8 (qt : QtPaste) : Type 0 where
  pub ascii :
      (text : List ℕ) (c : ℕ)
      → c < 0x80
      → All (λ unit. unit ≢ c) text
      → All (λ byte. byte ≢ c) (qt.to_utf8 text)

safe : (c : ℕ) → is_unsafe c ≡ false → IsSafe c
safe c e = ground (arith, e)

unsafe-lt : (c : ℕ) → is_unsafe c ≡ true → c < 0x20
unsafe-lt c e = ground (arith, e)

-- A safe text has no unsafe character, and a text that has none is safe.
IsSafe-differs :
    (c : ℕ) → is_unsafe c ≡ true → (text : List ℕ) → All IsSafe text → All (λ unit. unit ≢ c) text
IsSafe-differs c e [] h = tt
IsSafe-differs c e (x ∷ xs) h = (λ same. ground (arith, e, same, h.0), IsSafe-differs c e xs h.1)

differs-IsSafe :
    (bytes : List ℕ)
    → ((c : ℕ) → is_unsafe c ≡ true → All (λ byte. byte ≢ c) bytes)
    → All IsSafe bytes
differs-IsSafe [] h = tt
differs-IsSafe (x ∷ xs) h = (
  elim (Bool-cases (is_unsafe x)) [ inl bad ↦ absurd ((h x bad).0 refl) | inr good ↦ safe x good ],
  differs-IsSafe xs (λ c e. (h c e).1),
)

remove_if-safe : (text : List ℕ) → All IsSafe text → remove_if is_unsafe text ≡ text
remove_if-safe [] h = refl
remove_if-safe (x ∷ xs) h = elim (Bool-cases (is_unsafe x)) [
  | inl bad ↦ absurd (ground (arith, bad, h.0))
  | inr good ↦ rw good (ap (x ∷◌) (remove_if-safe xs h.1))
]

module _ (qt : QtPaste) where
  -- A paste without brackets sends no control below 0x20 but carriage returns and tabs, whatever the
  -- clipboard held, if the encoding has an ASCII byte only where the text has it; and of a text that
  -- has no such control once its line ends are carriage returns, all is sent.
  pub encode_paste-IsSafe :
      (text : List ℕ)
      → IsUtf8 qt
      → All IsSafe (encode_paste qt text false)
        × (All IsSafe (normalise qt text)
            → encode_paste qt text false ≡ qt.to_utf8 (normalise qt text))
  unfolding encode_paste sanitise
  encode_paste-IsSafe text utf8 =
      let kept = remove_if is_unsafe (normalise qt text) in
      let clean : All IsSafe kept = All-remove_if _ is_unsafe (normalise qt text) safe in
      (
        differs-IsSafe (qt.to_utf8 kept) (λ c e.
            utf8.ascii kept c (omega (arith, unsafe-lt c e)) (IsSafe-differs c e kept clean)),
        λ h. ap qt.to_utf8 (remove_if-safe (normalise qt text) h),
      )
