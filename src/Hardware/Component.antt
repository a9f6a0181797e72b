-- ===== src/Hardware/Component.antt =====
-- valid_component of platform/libhardware/hardware.c: ids and variants that may enter a file name.
use dark_os_svc_kit.Common.{
  ℕ, ◌+◌, ◌≤◌, ◌≡◌, refl, ◌≢◌, ◌↔◌, Bool, true, false, not, ◌&&◌, ◌||◌, Option, none, some, [], ◌∷◌,
  arith, ltb, leb, ◌==◌, if◌then◌else◌, length, All, all, Text,
}

abbrev pub max_id_length : ℕ
max_id_length = 63

abbrev pub max_variant_length : ℕ
max_variant_length = 63

abbrev pub max_path_length : ℕ
max_path_length = 1023

-- The character test inside the loop.
unfoldable pub allowed_character : ℕ → Bool
allowed_character c =
    (leb b'a' c && leb c b'z')
    || (leb b'A' c && leb c b'Z')
    || (leb b'0' c && leb c b'9')
    || c == b'_'
    || c == b'-'
    || c == b'.'

-- The loop: `n` characters have been accepted so far.
unfoldable pub check_characters : ℕ → ℕ → Text → Bool
check_characters maximum n [] = true
check_characters maximum n (c ∷ rest) =
    if not (allowed_character c)
    then false
    else if ltb maximum (n + 1)
    then false
    else check_characters maximum (n + 1) rest

-- `none` is a null pointer.
unfoldable pub valid_component : Option Text → ℕ → Bool
unfolding check_characters
valid_component none maximum = false
valid_component (some []) maximum = false
valid_component (some (c ∷ rest)) maximum = check_characters maximum 0 (c ∷ rest)

-- The loop in one equation: every character passes, and the count stays within the limit.
check_characters_lem :
    (maximum n : ℕ) (s : Text)
    → n ≤ maximum
    → check_characters maximum n s ≡ (all allowed_character s && leb (n + length s) maximum)
unfolding check_characters
check_characters_lem maximum n [] h = ground arith
check_characters_lem maximum n (c ∷ rest) h =
    ground (arith, check_characters_lem maximum (n + 1) rest)

-- A component is valid exactly when it is a text that is not empty, no longer than the limit, and
-- made of letters, digits, `_`, `-` and `.` alone.
pub valid_component_iff :
    (s : Text) (maximum : ℕ)
    → (valid_component (some s) maximum ≡ true)
      ↔ ((s ≢ []) × (length s ≤ maximum) × (all allowed_character s ≡ true))
unfolding valid_component
valid_component_iff [] maximum = (λ h. cc, λ h. absurd (h.0 refl))
valid_component_iff (c ∷ rest) maximum = (
  λ h. ground (arith, check_characters_lem maximum 0 (c ∷ rest)),
  λ h. ground (arith, check_characters_lem maximum 0 (c ∷ rest)),
)

not_separator : (c : ℕ) → allowed_character c ≡ true → (c ≢ b'/') × (c ≢ b':') × (c ≢ 0)
unfolding allowed_character
not_separator c h = ground arith

-- What is valid holds no `/` and no `:`, so it neither leaves its directory nor splits a search path.
pub valid_component_no_separator :
    (s : Text) (maximum : ℕ)
    → valid_component (some s) maximum ≡ true
    → All (λ c. (c ≢ b'/') × (c ≢ b':') × (c ≢ 0)) s
valid_component_no_separator s maximum h = clean s ((valid_component_iff s maximum).0 h).2
  where
    clean :
        (t : Text) → all allowed_character t ≡ true → All (λ c. (c ≢ b'/') × (c ≢ b':') × (c ≢ 0)) t
    clean [] a = tt
    clean (c ∷ t) a = (not_separator c (ground arith), clean t (ground arith))
