-- ===== src/Base/Text.antt =====
-- `std::string` as the list of its bytes, and the library operations on it that the sources call.
use Prim.Native.Nat.{ℕ, suc, ◌+◌}
use Prim.Native.Char.{code}
use Prim.Native.String.{String}
use mathlib.Core.Path.{◌≡◌, ◌∙◌, sym, refl}
use mathlib.Core.Logic.{◌↔◌, ◌≢◌}
use mathlib.Core.Bool.{false≢true, Bool, true, false, ◌&&◌, ◌||◌}
use mathlib.Core.List.{List, [], ◌∷◌}
use mathlib.Core.Option.{Option, none, some}
use native.Mathlib.Omega.{arith}
use cpp_ai_service.Base.Tests.{ltb, leb, ◌==◌, if◌then◌else◌}
use cpp_ai_service.Base.Lists.{drop}

abbrev pub Bytes : Type 0
Bytes = List ℕ

-- The code points of a literal, which are its bytes, since every literal used is ASCII.
abbrev pub codes : String → Bytes
codes String.[] = []
codes (String.◌∷◌ c s) = code c ∷ codes s

-- `operator==` of two strings.
unfoldable pub same_bytes : Bytes → Bytes → Bool
same_bytes [] [] = true
same_bytes [] (y ∷ ys) = false
same_bytes (x ∷ xs) [] = false
same_bytes (x ∷ xs) (y ∷ ys) = x == y && same_bytes xs ys

same_bytes→eq : (xs ys : Bytes) → same_bytes xs ys ≡ true → xs ≡ ys
unfolding same_bytes
same_bytes→eq [] [] h = refl
same_bytes→eq [] (y ∷ ys) h = cc
same_bytes→eq (x ∷ xs) [] h = cc
same_bytes→eq (x ∷ xs) (y ∷ ys) h = ground (arith, same_bytes→eq xs ys)

pub same_bytes_refl : (xs : Bytes) → same_bytes xs xs ≡ true
unfolding same_bytes
same_bytes_refl [] = refl
same_bytes_refl (x ∷ xs) = ground (arith, same_bytes_refl xs)

pub same_bytes_iff : (xs ys : Bytes) → (same_bytes xs ys ≡ true) ↔ (xs ≡ ys)
same_bytes_iff xs ys = (same_bytes→eq xs ys, λ e. rw e (same_bytes_refl ys))

pub ne_of_same_bytes : (xs ys : Bytes) → same_bytes xs ys ≡ false → xs ≢ ys
ne_of_same_bytes xs ys h e = false≢true (sym h ∙ (same_bytes_iff xs ys).1 e)

-- `operator<` of two strings, the order of `std::map`.
unfoldable pub before_bytes : Bytes → Bytes → Bool
before_bytes xs [] = false
before_bytes [] (y ∷ ys) = true
before_bytes (x ∷ xs) (y ∷ ys) = ltb x y || (x == y && before_bytes xs ys)

-- `text.compare(0, prefix.size(), prefix) == 0`.
unfoldable pub starts_with : Bytes → Bytes → Bool
starts_with [] s = true
starts_with (c ∷ prefix) [] = false
starts_with (c ∷ prefix) (d ∷ s) = c == d && starts_with prefix s

-- `text.find(needle)`: the place of the first occurrence.
unfoldable pub find : Bytes → Bytes → Option ℕ
unfolding starts_with
find needle [] = if starts_with needle [] then some 0 else none
find needle (c ∷ s) =
    let later = find needle s in
    if starts_with needle (c ∷ s)
    then some 0
    else elim later [ none ↦ none | some i ↦ some (suc i) ]

-- `text.find(needle, from)`, for a needle that is not empty.
unfoldable pub find_from : Bytes → Bytes → ℕ → Option ℕ
find_from needle s from = elim (find needle (drop from s)) [
  | none ↦ none
  | some i ↦ some (from + i)
]

-- `std::isspace`, `std::isalnum` and `std::tolower` in the C locale.
abbrev pub is_space : ℕ → Bool
is_space c = c == b' ' || (leb 9 c && leb c 13)

abbrev pub is_digit : ℕ → Bool
is_digit c = leb b'0' c && leb c b'9'

abbrev pub is_upper : ℕ → Bool
is_upper c = leb b'A' c && leb c b'Z'

abbrev pub is_lower : ℕ → Bool
is_lower c = leb b'a' c && leb c b'z'

abbrev pub is_alnum : ℕ → Bool
is_alnum c = is_digit c || is_upper c || is_lower c

abbrev pub lower_byte : ℕ → ℕ
lower_byte c = if is_upper c then c + 32 else c
