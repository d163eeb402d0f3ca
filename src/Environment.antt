-- ===== src/Environment.antt =====
-- The readers of environment variables of src/UserStore.cc and src/AiClient.cc, over `getenv` as a
-- function, with the C library's conversions to numbers.
use cpp_ai_service.Base.{
  ℕ, ◌-◌, ◌%◌, ◌^◌, Bool, true, false, not, [], ◌∷◌, List, Option, none, some, Bytes, leb, ltb,
  ◌==◌, if◌then◌else◌, is_empty, is_digit,
}
use cpp_ai_service.HttpCodec.Strings.{skip_spaces}
use cpp_ai_service.HttpCodec.Request.{digits_value}

-- `negsuc n` is -(n + 1).
pub data ℤ : Type 0 where
  pos : ℕ → ℤ
  negsuc : ℕ → ℤ

abbrev pub Environment : Type 0
Environment = Bytes → Option Bytes

abbrev pub is_positive : ℤ → Bool
is_positive (pos n) = ltb 0 n
is_positive (negsuc n) = false

-- The conversion to a 32-bit `int` keeps the low bits.
abbrev pub signed_32 : ℕ → ℤ
signed_32 word = if ltb word (2 ^ 31) then pos word else negsuc (2 ^ 32 - word - 1)

unfoldable pub to_int : ℤ → ℤ
to_int (pos n) = signed_32 (n % 2 ^ 32)
to_int (negsuc n) = signed_32 (2 ^ 32 - 1 - n % 2 ^ 32)

-- A 64-bit `long`: what does not fit is the nearest number that does.
unfoldable pub to_long : Bool → ℕ → ℤ
to_long false n = pos (if leb (2 ^ 63) n then 2 ^ 63 - 1 else n)
to_long true n =
    if n == 0 then pos 0 else if leb (2 ^ 63) n then negsuc (2 ^ 63 - 1) else negsuc (n - 1)

abbrev pub is_number : Bytes → Bool
is_number [] = false
is_number (c ∷ s) = is_digit c

-- The number at the head of the text, or none where there is no digit.
unfoldable pub long_of : Bool → Bytes → Option ℤ
long_of negative s = if is_number s then some (to_long negative (digits_value 0 s)) else none

unfoldable pub signed_long : Bytes → Option ℤ
signed_long [] = none
signed_long (c ∷ s) =
    if c == b'-'
    then long_of true s
    else if c == b'+'
    then long_of false s
    else long_of false (c ∷ s)

unfoldable pub strtol : Bytes → Option ℤ
strtol s = signed_long (skip_spaces s)

abbrev pub or_zero : Option ℤ → ℤ
or_zero none = pos 0
or_zero (some n) = n

-- `atoi`, as the C library defines it: `strtol` cut to an `int`.
unfoldable pub atoi : Bytes → ℤ
atoi s = to_int (or_zero (strtol s))

unfoldable pub getenv_string : Environment → Bytes → Bytes
getenv_string env name = elim (env name) [ none ↦ [] | some value ↦ value ]

unfoldable pub getenv_positive_int : Environment → Bytes → ℕ → ℤ
getenv_positive_int env name fallback = elim (env name) [
  | none ↦ pos fallback
  | some value ↦
      let parsed = atoi value in
      if is_empty value
      then pos fallback
      else if not (is_positive parsed)
      then pos fallback
      else parsed
]

unfoldable pub env_or_default : Environment → Bytes → Bytes → Bytes
env_or_default env name fallback = elim (env name) [
  | none ↦ fallback
  | some value ↦ if is_empty value then fallback else value
]

-- The sign is tested before the number is cut to an `int`.
unfoldable pub positive_env_or_default : Environment → Bytes → ℕ → ℤ
positive_env_or_default env name fallback = elim (env name) [
  | none ↦ pos fallback
  | some value ↦ if is_empty value then pos fallback else elim (strtol value) [
    | none ↦ pos fallback
    | some parsed ↦ if is_positive parsed then to_int parsed else pos fallback
  ]
]

-- The first of the named variables that is set and not empty. An absent name is passed over.
unfoldable pub first_env_value : Environment → List (Option Bytes) → Bytes → Bytes
first_env_value env [] fallback = fallback
first_env_value env (none ∷ names) fallback = first_env_value env names fallback
first_env_value env (some name ∷ names) fallback =
    let rest = first_env_value env names fallback in
    elim (env name) [ none ↦ rest | some value ↦ if is_empty value then rest else value ]
