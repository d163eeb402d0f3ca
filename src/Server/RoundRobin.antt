-- ===== src/Server/RoundRobin.antt =====
-- The loops are given out in turn.
use cpp_ai_service.Base.{
  ℕ, zero, suc, ◌+◌, ◌%◌, ◌<◌, ◌≡◌, ◌∙◌, refl, sym, ap, subst, false, List, [], ◌∷◌, ◌++◌, some,
  is_empty, length, length-append, leb, ◌==◌, get_elem?, arith, Bool-cases, if_lem, inl, inr,
}
use native.Mathlib.Nat.{add-mod_left, mod-eq_of_lt, mod-lt}
use cpp_ai_service.Server.LoopPool.{
  LoopPool, new_pool, start, start_loops, advance, get_next_loop, next_loops,
}

start_loops_size : (start_loop : ℕ → ℕ) (n : ℕ) → length (start_loops start_loop n) ≡ n
unfolding start_loops
start_loops_size start_loop zero = refl
start_loops_size start_loop (suc n) = omega (
  arith,
  length-append (start_loops start_loop n) (start_loop n ∷ []),
  start_loops_size start_loop n,
)

advance_loops : (pool : LoopPool) → (advance pool).loops ≡ pool.loops
unfolding advance
advance_loops pool =
    if_lem (λ (p : LoopPool). p.loops ≡ pool.loops) (leb (length pool.loops) (pool.next + 1))
      (λ _. refl) (λ _. refl)

-- A position counted from the next one.
turn_lem :
    (pool : LoopPool) (i : ℕ)
    → pool.next < length pool.loops
    → ((advance pool).next < length pool.loops)
      × (((advance pool).next + i) % length pool.loops ≡ (pool.next + suc i) % length pool.loops)
unfolding advance
turn_lem pool i h =
    if_lem
      (λ (p : LoopPool).
        (p.next < length pool.loops)
        × ((p.next + i) % length pool.loops ≡ (pool.next + suc i) % length pool.loops))
      (leb (length pool.loops) (pool.next + 1))
      (λ last.
        let none_before : 0 + i ≡ i = omega arith in
        let round : length pool.loops + i ≡ pool.next + suc i = ground (arith, last, h) in
        (
          omega (arith, h),
          ap (λ (k : ℕ). k % length pool.loops) none_before
              ∙ sym (add-mod_left (length pool.loops) i)
              ∙ ap (λ (k : ℕ). k % length pool.loops) round,
        ))
      (λ more.
        let same : pool.next + 1 + i ≡ pool.next + suc i = omega arith in
        (ground (arith, more), ap (λ (k : ℕ). k % length pool.loops) same))

not_empty : (xs : List ℕ) (n : ℕ) → n < length xs → is_empty xs ≡ false
not_empty [] n h = absurd (omega arith)
not_empty (x ∷ xs) n h = refl

next_loops_turn :
    (k : ℕ) (pool : LoopPool) (i : ℕ)
    → pool.next < length pool.loops
    → i < k
    → get_elem? (next_loops k pool) i
      ≡ some (get_elem? pool.loops ((pool.next + i) % length pool.loops))
unfolding next_loops get_next_loop
next_loops_turn zero pool i h l = absurd (omega arith)
next_loops_turn (suc k) pool zero h l =
    let same : pool.next % length pool.loops ≡ (pool.next + 0) % length pool.loops =
      ap (λ (n : ℕ). n % length pool.loops) (omega arith) in
    rw (not_empty pool.loops pool.next h)
      (ap (λ (n : ℕ). some (get_elem? pool.loops n)) (sym (mod-eq_of_lt h) ∙ same))
next_loops_turn (suc k) pool (suc i) h l =
    let (small, turn) = turn_lem pool i h in
    rw (not_empty pool.loops pool.next h) (
      next_loops_turn k (advance pool) i
        (subst (λ (ls : List ℕ). (advance pool).next < length ls) (sym (advance_loops pool)) small)
        (omega (arith, l))
      ∙ ap (λ (ls : List ℕ). some (get_elem? ls (((advance pool).next + i) % length ls)))
          (advance_loops pool)
      ∙ ap (λ (n : ℕ). some (get_elem? pool.loops n)) turn)

elem_first : (xs ys : List ℕ) (i : ℕ) → i < length xs → get_elem? (xs ++ ys) i ≡ get_elem? xs i
elem_first [] ys i h = absurd (omega arith)
elem_first (x ∷ xs) ys zero h = refl
elem_first (x ∷ xs) ys (suc i) h = elem_first xs ys i (omega arith)

elem_last : (xs : List ℕ) (y i : ℕ) → i ≡ length xs → get_elem? (xs ++ y ∷ []) i ≡ some y
elem_last [] y zero e = refl
elem_last [] y (suc i) e = absurd (omega (arith, e))
elem_last (x ∷ xs) y zero e = absurd (omega (arith, e))
elem_last (x ∷ xs) y (suc i) e = elem_last xs y i (omega (arith, e))

-- The loop of a thread, by its number.
start_loops_elem :
    (start_loop : ℕ → ℕ) (n i : ℕ)
    → i < n
    → get_elem? (start_loops start_loop n) i ≡ some (start_loop i)
unfolding start_loops
start_loops_elem start_loop zero i h = absurd (omega arith)
start_loops_elem start_loop (suc n) i h = elim (Bool-cases (i == n)) [
  | inl e ↦
      elem_last (start_loops start_loop n) (start_loop n) i
        (ground (arith, e, start_loops_size start_loop n))
      ∙ ap (λ (j : ℕ). some (start_loop j)) (ground (arith, e))
  | inr e ↦
      elem_first (start_loops start_loop n) (start_loop n ∷ []) i
        (ground (arith, e, start_loops_size start_loop n))
      ∙ start_loops_elem start_loop n i (ground (arith, e))
]

-- Once the pool has started some threads, the calls of `getNextLoop` give the loops of the threads in
-- turn: the call of number `i` gives the loop of thread `i` modulo their number.
pub next_loops_lem :
    (start_loop : ℕ → ℕ) (base_loop num_threads k i : ℕ)
    → 0 < num_threads
    → i < k
    → get_elem? (next_loops k (start start_loop (new_pool base_loop num_threads))) i
      ≡ some (some (start_loop (i % num_threads)))
unfolding start new_pool
next_loops_lem start_loop base_loop num_threads k i h l =
    let pool = start start_loop (new_pool base_loop num_threads) in
    let size = start_loops_size start_loop num_threads in
    let none_before : 0 + i ≡ i = omega arith in
    next_loops_turn k pool i (omega (arith, h, size)) l
    ∙ ap (λ (n : ℕ). some (get_elem? pool.loops (n % length pool.loops))) none_before
    ∙ ap (λ (n : ℕ). some (get_elem? pool.loops (i % n))) size
    ∙ ap some (start_loops_elem start_loop num_threads (i % num_threads) (mod-lt i h))
