-- ===== src/UserStore/Password.antt =====
-- src/UserStore.cc: `demoHashPassword`, `randomHex`, `toHex`, `validateUsername`, `validatePassword`.
use Prim.Native.Nat.{bit_xor}
use cpp_ai_service.Base.{
  ℕ, zero, suc, ◌+◌, ◌-◌, ◌*◌, ◌/◌, ◌%◌, ◌^◌, Bool, true, ◌&&◌, ◌||◌, [], ◌∷◌, ◌++◌, List, Option,
  none, some, Bytes, codes, ltb, ◌==◌, if◌then◌else◌, is_alnum, length,
}

-- `unsigned long long` arithmetic is modulo this.
abbrev pub word_limit : ℕ
word_limit = 2 ^ 64

-- `hash ^= value; hash *= 1099511628211`.
unfoldable pub mix : ℕ → ℕ → ℕ
mix hash value = (bit_xor hash value * 1099511628211) % word_limit

unfoldable pub mix_bytes : ℕ → Bytes → ℕ
unfolding mix
mix_bytes hash [] = hash
mix_bytes hash (c ∷ s) = mix_bytes (mix hash c) s

-- The loop over the rounds: `left` rounds from the number `round` on.
unfoldable pub mix_rounds : ℕ → ℕ → Bytes → ℕ → ℕ
unfolding mix_bytes
mix_rounds zero round salt hash = hash
mix_rounds (suc left) round salt hash =
    mix_rounds left (round + 1) salt (mix_bytes (mix hash round) salt)

unfoldable pub hex_digit : ℕ → ℕ
hex_digit d = if ltb d 10 then b'0' + d else b'a' + (d - 10)

-- The last `width` hexadecimal digits of a number, zeros in front.
unfoldable pub hex_digits : ℕ → ℕ → Bytes → Bytes
unfolding hex_digit
hex_digits zero n out = out
hex_digits (suc width) n out = hex_digits width (n / 16) (hex_digit (n % 16) ∷ out)

unfoldable pub to_hex : ℕ → Bytes
unfolding hex_digits
to_hex value = hex_digits 16 value []

-- The hash before it is printed.
unfoldable pub hash_word : Bytes → Bytes → ℕ
unfolding mix_rounds
hash_word salt password =
    mix_rounds 4096 0 salt (mix_bytes 1469598103934665603 (salt ++ b':' ∷ password))

unfoldable pub demo_hash_password : Bytes → Bytes → Bytes
demo_hash_password salt password = to_hex (hash_word salt password)

-- `randomHex`, from the numbers that the random device gives.
unfoldable pub random_hex : List ℕ → Bytes
unfolding hex_digits
random_hex [] = []
random_hex (value ∷ values) = hex_digits 2 (value % 256) [] ++ random_hex values

unfoldable pub is_name_byte : ℕ → Bool
is_name_byte c = is_alnum c || c == b'_' || c == b'-'

unfoldable pub all_name_bytes : Bytes → Bool
unfolding is_name_byte
all_name_bytes [] = true
all_name_bytes (c ∷ s) = is_name_byte c && all_name_bytes s

abbrev pub bad_size : Bytes
bad_size = codes "username must be 3 to 32 characters"

abbrev pub bad_byte : Bytes
bad_byte = codes "username can only contain letters, numbers, underscores, and hyphens"

abbrev pub bad_password : Bytes
bad_password = codes "password must be 8 to 128 characters"

-- The error, if there is one.
unfoldable pub validate_username : Bytes → Option Bytes
unfolding all_name_bytes
validate_username username =
    if ltb (length username) 3 || ltb 32 (length username)
    then some bad_size
    else if all_name_bytes username
    then none
    else some bad_byte

unfoldable pub validate_password : Bytes → Option Bytes
validate_password password =
    if ltb (length password) 8 || ltb 128 (length password) then some bad_password else none
