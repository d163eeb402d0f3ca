-- ===== src/Reactor/Bits.antt =====
-- The events of a channel as bits: reading and writing do not touch one another.
use cpp_ai_service.Base.{
  ℕ, zero, suc, ◌<◌, ◌≡◌, refl, Bool, true, false, ◌&&◌, ◌==◌, ltb, not, arith, Bool-cases, inl,
  inr,
}
use cpp_ai_service.Reactor.Channel.{
  enable_reading, disable_reading, enable_writing, disable_writing, is_writing,
}
use cpp_ai_service.Reactor.Objects.{
  Change, reading_on, reading_off, writing_on, writing_off, all_off, changed_events,
}

-- A test that holds of all numbers below a bound.
abbrev all_below : ℕ → (ℕ → Bool) → Bool
all_below zero test = true
all_below (suc n) test = test n && all_below n test

all_below_lem :
    (n : ℕ) (test : ℕ → Bool) → all_below n test ≡ true → (k : ℕ) → k < n → test k ≡ true
all_below_lem zero test e k h = absurd (omega arith)
all_below_lem (suc n) test e k h = elim (Bool-cases (k == n)) [
  | inl y ↦ ground (arith, y, e)
  | inr y ↦ all_below_lem n test (ground (arith, e)) k (ground (arith, y))
]

-- What a change makes of writing.
abbrev pub writing_after : Change → Bool → Bool
writing_after reading_on on = on
writing_after reading_off on = on
writing_after writing_on on = true
writing_after writing_off on = false
writing_after all_off on = false

abbrev same : Bool → Bool → Bool
same true b = b
same false b = not b

same_lem : (a b : Bool) → same a b ≡ true → a ≡ b
same_lem true b e = ground arith
same_lem false b e = ground arith

abbrev changes_right : Change → ℕ → Bool
changes_right how events =
    same (is_writing (changed_events how events)) (writing_after how (is_writing events))
    && ltb (changed_events how events) 8

changes_right_lem : (how : Change) → all_below 8 (changes_right how) ≡ true
unfolding changed_events is_writing enable_reading disable_reading enable_writing disable_writing
changes_right_lem reading_on = refl
changes_right_lem reading_off = refl
changes_right_lem writing_on = refl
changes_right_lem writing_off = refl
changes_right_lem all_off = refl

-- Events are bits below 8.
pub changed_writing :
    (how : Change) (events : ℕ)
    → events < 8
    → (is_writing (changed_events how events) ≡ writing_after how (is_writing events))
      × (changed_events how events < 8)
changed_writing how events h =
    let e = all_below_lem 8 (changes_right how) (changes_right_lem how) events h in
    (
      same_lem (is_writing (changed_events how events)) (writing_after how (is_writing events))
          (ground (arith, e)),
      ground (arith, e),
    )
