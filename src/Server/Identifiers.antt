-- ===== src/Server/Identifiers.antt =====
-- The names of two identifiers differ.
use native.Mathlib.Nat.{pow-suc}
use cpp_ai_service.Base.{
  ℕ, zero, suc, ◌+◌, ◌/◌, ◌%◌, ◌^◌, ◌*◌, ◌<◌, ◌≤◌, ◌≡◌, ◌∙◌, refl, sym, ap, [], ◌∷◌, ◌++◌, Bytes,
  codes, length, length-append, take, ltb, arith, if_lem,
}
use cpp_ai_service.Base.Dictionary.{bytes_key}
use cpp_ai_service.HttpCodec.Strings.{digits, decimal}
use cpp_ai_service.HttpCodec.Numbers.{strtoul-decimal}
use cpp_ai_service.HttpCodec.Request.{strtoul}
use cpp_ai_service.Server.Acceptance.{TcpServer, connection_name}

tenth : (k n : ℕ) → n < 10 ^ suc (suc k) → n / 10 < 10 ^ suc k
tenth k n h = let e : 10 ^ suc (suc k) ≡ 10 ^ suc k * 10 = pow-suc 10 (suc k) in omega (arith, h, e)

-- As many digits as a power of ten needs.
length-digits :
    (k rounds n : ℕ) (out : Bytes)
    → n < 10 ^ suc k
    → length (digits rounds n out) ≤ suc k + length out
unfolding digits
length-digits k zero n out h = omega arith
length-digits zero (suc rounds) n out h =
    if_lem (λ (l : Bytes). length l ≤ 1 + length out) (ltb n 10) (λ _. omega arith)
      (λ e. absurd (ground (arith, e, h)))
length-digits (suc k) (suc rounds) n out h =
    if_lem (λ (l : Bytes). length l ≤ suc (suc k) + length out) (ltb n 10) (λ _. omega arith)
      (λ _.
        let more = length-digits k rounds (n / 10) ((b'0' + n % 10) ∷ out) (tenth k n h) in
        omega (arith, more))

-- An identifier that fits 31 bits.
length-decimal : (n : ℕ) → n < 2 ^ 31 → length (decimal n) ≤ 10
unfolding decimal
length-decimal n h = length-digits 9 (suc n) n [] (omega arith)

take_short : (n : ℕ) (xs : Bytes) → length xs ≤ n → take n xs ≡ xs
take_short zero [] h = refl
take_short zero (x ∷ xs) h = absurd (omega arith)
take_short (suc n) [] h = refl
take_short (suc n) (x ∷ xs) h = ap (◌∷◌ x) (take_short n xs (omega arith))

append_cancel : (xs ys zs : Bytes) → xs ++ ys ≡ xs ++ zs → ys ≡ zs
append_cancel [] ys zs e = e
append_cancel (x ∷ xs) ys zs e = append_cancel xs ys zs (ground (arith, e))

decimal_inj : (a b : ℕ) → a < 2 ^ 31 → b < 2 ^ 31 → decimal a ≡ decimal b → a ≡ b
decimal_inj a b h k e =
    sym (strtoul-decimal a (omega arith)) ∙ ap strtoul e ∙ strtoul-decimal b (omega arith)

-- The name of an identifier, where the address is no longer than an address and a port are.
pub name_inj :
    (s : TcpServer) (a b : ℕ)
    → length s.ip_port ≤ 21
    → a < 2 ^ 31
    → b < 2 ^ 31
    → connection_name s a ≡ connection_name s b
    → a ≡ b
unfolding connection_name
name_inj s a b short h k e =
    let whole : (id : ℕ)
        → id < 2 ^ 31
        → take 63 (codes "-" ++ (s.ip_port ++ (codes "#" ++ decimal id)))
          ≡ codes "-" ++ (s.ip_port ++ (codes "#" ++ decimal id)) =
      λ id small. take_short 63 (codes "-" ++ (s.ip_port ++ (codes "#" ++ decimal id))) (
        omega (
          arith,
          short,
          length-append s.ip_port (codes "#" ++ decimal id),
          length-decimal id small,
        )) in
    let ends = append_cancel s.name _ _ e in
    let same = append_cancel (codes "-") _ _ (sym (whole a h) ∙ ends ∙ whole b k) in
    decimal_inj a b h k (append_cancel (codes "#") _ _ (append_cancel s.ip_port _ _ same))
