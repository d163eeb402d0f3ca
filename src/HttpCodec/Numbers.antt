-- ===== src/HttpCodec/Numbers.antt =====
-- The decimal print of a length against `strtoul`.
use cpp_ai_service.Base.{
  ℕ, zero, suc, ◌+◌, ◌/◌, ◌%◌, ◌≤◌, ◌<◌, ◌≡◌, ◌∙◌, refl, [], ◌∷◌, arith, Bytes,
}
use cpp_ai_service.HttpCodec.Strings.{digits, decimal}
use cpp_ai_service.HttpCodec.Request.{digits_value, strtoul, size_limit}

-- Enough rounds take every digit off, and reading them rebuilds the number.
digits_value-digits :
    (rounds n : ℕ) (out : Bytes)
    → n < rounds
    → digits_value 0 (digits rounds n out) ≡ digits_value n out
unfolding digits digits_value
digits_value-digits zero n out h = absurd (omega arith)
digits_value-digits (suc rounds) n out h =
    ground (arith, digits_value-digits rounds (n / 10) ((b'0' + n % 10) ∷ out))

abbrev IsDigit : ℕ → Type 0
IsDigit c = (b'0' ≤ c) × (c ≤ b'9')

abbrev AllDigits : Bytes → Type 0
AllDigits [] = Unit {0}
AllDigits (c ∷ s) = IsDigit c

digits-digit : (rounds n : ℕ) (out : Bytes) → AllDigits out → AllDigits (digits rounds n out)
unfolding digits
digits-digit zero n out h = h
digits-digit (suc rounds) n out h =
    ground (arith, digits-digit rounds (n / 10) ((b'0' + n % 10) ∷ out))

strtoul_of_digit :
    (s : Bytes) → AllDigits s → digits_value 0 s < size_limit → strtoul s ≡ digits_value 0 s
unfolding strtoul
strtoul_of_digit [] h lt = unfold digits_value in refl
strtoul_of_digit (c ∷ s) h lt = ground arith

-- Every number below 2 ^ 64 is read back from its print.
pub strtoul-decimal : (n : ℕ) → n < size_limit → strtoul (decimal n) ≡ n
unfolding decimal
strtoul-decimal n h =
    let value = digits_value-digits (suc n) n [] (omega arith) in
    unfold digits_value in
    (strtoul_of_digit (digits (suc n) n []) (digits-digit (suc n) n [] tt) (ground arith) ∙ value)
