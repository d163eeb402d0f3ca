-- ===== src/UserStore/Hex.antt =====
-- The texts that `randomHex`, `toHex` and the name check let through.
use cpp_ai_service.Base.{
  ℕ, zero, suc, ◌+◌, ◌*◌, ◌/◌, ◌%◌, ◌≤◌, ◌<◌, ◌≡◌, ◌⊎◌, true, [], ◌∷◌, arith, Bytes, List, All,
  All-append, length, length-append, none,
}
use cpp_ai_service.HttpCodec.Escape.{Plain}
use cpp_ai_service.UserStore.Password.{
  hex_digit, hex_digits, to_hex, demo_hash_password, hash_word, random_hex, is_name_byte,
  all_name_bytes, validate_username,
}

-- A lower-case hexadecimal digit.
abbrev pub IsHexByte : ℕ → Type 0
IsHexByte c = ((b'0' ≤ c) × (c ≤ b'9')) ⊎ ((b'a' ≤ c) × (c ≤ b'f'))

abbrev pub IsNameByte : ℕ → Type 0
IsNameByte c = is_name_byte c ≡ true

hex_digit-IsHexByte : (d : ℕ) → d < 16 → IsHexByte (hex_digit d)
unfolding hex_digit
hex_digit-IsHexByte d h = ground arith

hex_digits-IsHexByte :
    (width n : ℕ) (out : Bytes) → All IsHexByte out → All IsHexByte (hex_digits width n out)
unfolding hex_digits
hex_digits-IsHexByte zero n out h = h
hex_digits-IsHexByte (suc width) n out h =
    hex_digits-IsHexByte width (n / 16) (hex_digit (n % 16) ∷ out)
      (hex_digit-IsHexByte (n % 16) (omega arith), h)

length-hex_digits :
    (width n : ℕ) (out : Bytes) → length (hex_digits width n out) ≡ width + length out
unfolding hex_digits
length-hex_digits zero n out = omega arith
length-hex_digits (suc width) n out =
    omega (arith, length-hex_digits width (n / 16) (hex_digit (n % 16) ∷ out))

pub demo_hash_password-IsHexByte :
    (salt password : Bytes) → All IsHexByte (demo_hash_password salt password)
unfolding demo_hash_password to_hex
demo_hash_password-IsHexByte salt password = hex_digits-IsHexByte 16 (hash_word salt password) [] tt

length-to_hex : (value : ℕ) → length (to_hex value) ≡ 16
unfolding to_hex
length-to_hex value = length-hex_digits 16 value []

pub length-demo_hash_password :
    (salt password : Bytes) → length (demo_hash_password salt password) ≡ 16
unfolding demo_hash_password
length-demo_hash_password salt password = length-to_hex (hash_word salt password)

pub random_hex-IsHexByte : (values : List ℕ) → All IsHexByte (random_hex values)
unfolding random_hex
random_hex-IsHexByte [] = tt
random_hex-IsHexByte (value ∷ values) =
    All-append _ (hex_digits 2 (value % 256) []) (random_hex values)
      (hex_digits-IsHexByte 2 (value % 256) [] tt) (random_hex-IsHexByte values)

pub length-random_hex : (values : List ℕ) → length (random_hex values) ≡ 2 * length values
unfolding random_hex
length-random_hex [] = omega arith
length-random_hex (value ∷ values) = omega (
  arith,
  length-append (hex_digits 2 (value % 256) []) (random_hex values),
  length-hex_digits 2 (value % 256) [],
  length-random_hex values,
)

pub IsHexByte-Plain : (s : Bytes) → All IsHexByte s → All Plain s
IsHexByte-Plain [] h = tt
IsHexByte-Plain (c ∷ s) h = (ground arith, IsHexByte-Plain s h.1)

pub IsNameByte-Plain : (s : Bytes) → All IsNameByte s → All Plain s
unfolding is_name_byte
IsNameByte-Plain [] h = tt
IsNameByte-Plain (c ∷ s) h = (ground arith, IsNameByte-Plain s h.1)

all_name_bytes-All : (s : Bytes) → all_name_bytes s ≡ true → All IsNameByte s
unfolding all_name_bytes
all_name_bytes-All [] h = tt
all_name_bytes-All (c ∷ s) h = (ground arith, all_name_bytes-All s (ground arith))

-- An accepted name has 3 to 32 bytes, each one a letter, a digit, an underscore or a hyphen.
pub validate_username_sound :
    (username : Bytes)
    → validate_username username ≡ none
    → (3 ≤ length username) × (length username ≤ 32) × All IsNameByte username
unfolding validate_username
validate_username_sound username h =
    (ground arith, ground arith, all_name_bytes-All username (ground arith))
