-- ===== src/Base/Finding.antt =====
-- Where `find` stops: laws of the search for a text in a text.
use cpp_ai_service.Base.{
  ℕ, zero, suc, ◌+◌, ◌≤◌, ◌≡◌, ◌≢◌, refl, ap, true, none, some, [], ◌∷◌, ◌++◌, arith, Bytes, All,
  starts_with, find, find_from, length, drop, inl, inr, Bool-cases, ◌∙◌, sym, ◌-◌,
}

-- A first occurrence is one.
pub starts_with-find :
    (needle s : Bytes) {i : ℕ} → find needle s ≡ some i → starts_with needle (drop i s) ≡ true
unfolding find
starts_with-find needle [] {i = zero} h = ground arith
starts_with-find needle [] {i = suc i} h = ground arith
starts_with-find needle (c ∷ s) {i = zero} h = ground arith
starts_with-find needle (c ∷ s) {i = suc i} h = starts_with-find needle s {i = i} (ground arith)

-- The search finds something no later than any occurrence.
pub find-le :
    (needle s : Bytes) (j : ℕ)
    → starts_with needle (drop j s) ≡ true
    → (i : ℕ) × (find needle s ≡ some i) × (i ≤ j)
unfolding find
find-le needle [] zero h = (0, ground arith, omega arith)
find-le needle [] (suc j) h = (0, ground arith, omega arith)
find-le needle (c ∷ s) zero h = (0, ground arith, omega arith)
find-le needle (c ∷ s) (suc j) h =
    let (i, found, le) = find-le needle s j h in
    elim (Bool-cases (starts_with needle (c ∷ s))) [
      | inl here ↦ (0, ground arith, omega arith)
      | inr later ↦ (suc i, ground arith, omega arith)
    ]

drop-nil : (n : ℕ) → drop {A = ℕ} n [] ≡ []
drop-nil zero = refl
drop-nil (suc n) = refl

pub drop-drop : (m n : ℕ) (s : Bytes) → drop m (drop n s) ≡ drop (n + m) s
drop-drop m zero s = let e : m ≡ zero + m = omega arith in ap (λ (k : ℕ). drop k s) e
drop-drop m (suc n) [] = drop-nil m ∙ sym (drop-nil (suc n + m))
drop-drop m (suc n) (c ∷ s) =
    let e : suc (n + m) ≡ suc n + m = omega arith in
    drop-drop m n s ∙ ap (λ (k : ℕ). drop k (c ∷ s)) e

pub find_from-some :
    (needle s : Bytes) (from : ℕ) {i : ℕ}
    → find needle (drop from s) ≡ some i
    → find_from needle s from ≡ some (from + i)
unfolding find_from
find_from-some needle s from h = rw (h, find_from)

pub find_from-none :
    (needle s : Bytes) (from : ℕ)
    → find needle (drop from s) ≡ none
    → find_from needle s from ≡ none
unfolding find_from
find_from-none needle s from h = rw (h, find_from)

pub find_from-le :
    (needle s : Bytes) (from j : ℕ)
    → starts_with needle (drop j s) ≡ true
    → from ≤ j
    → (i : ℕ) × (find_from needle s from ≡ some i) × (from ≤ i) × (i ≤ j)
find_from-le needle s from j h le =
    let e : from + (j - from) ≡ j = omega arith in
    let (i, found, close) =
      find-le needle (drop from s) (j - from) (rw (drop-drop (j - from) from s, e) h) in
    (from + i, find_from-some needle s from found, omega arith, omega arith)

pub starts_with-append : (a b s : Bytes) → starts_with (a ++ b) s ≡ true → starts_with a s ≡ true
unfolding starts_with
starts_with-append [] b s h = refl
starts_with-append (x ∷ a) b [] h = cc
starts_with-append (x ∷ a) b (c ∷ s) h = ground (arith, starts_with-append a b s)

-- Text that lacks the needle's first byte is passed over.
pub find_past :
    (x : ℕ) (needle t s : Bytes) {i : ℕ}
    → All (λ c. c ≢ x) t
    → find (x ∷ needle) s ≡ some i
    → find (x ∷ needle) (t ++ s) ≡ some (length t + i)
unfolding find
find_past x needle [] s {i} h found = found ∙ ap some (let e : i ≡ 0 + i = omega arith in e)
find_past x needle (c ∷ t) s {i} h found = ground (arith, find_past x needle t s {i = i} h.1)

pub find_past_none :
    (x : ℕ) (needle t s : Bytes)
    → All (λ c. c ≢ x) t
    → find (x ∷ needle) s ≡ none
    → find (x ∷ needle) (t ++ s) ≡ none
unfolding find
find_past_none x needle [] s h found = found
find_past_none x needle (c ∷ t) s h found = ground (arith, find_past_none x needle t s h.1)

pub find_here : (needle s : Bytes) → starts_with needle s ≡ true → find needle s ≡ some 0
unfolding find
find_here needle [] h = rw h
find_here needle (c ∷ s) h = rw h

pub starts_with_self : (a s : Bytes) → starts_with a (a ++ s) ≡ true
unfolding starts_with
starts_with_self [] s = refl
starts_with_self (x ∷ a) s = ground (arith, starts_with_self a s)
