-- ===== src/Server/LoopPool.antt =====
-- src/EventLoopThreadPool.cc: the loops of the threads, in turn. A loop is named by a number.
use cpp_ai_service.Base.{
  ℕ, zero, suc, ◌+◌, List, [], ◌∷◌, ◌++◌, Option, some, is_empty, length, leb, get_elem?,
  if◌then◌else◌,
}

pub record LoopPool : Type 0 where
  pub base_loop : ℕ
  pub num_threads : ℕ
  pub loops : List ℕ
  pub next : ℕ

unfoldable pub new_pool : ℕ → ℕ → LoopPool
new_pool base_loop num_threads = record {
  base_loop = base_loop;
  num_threads = num_threads;
  loops = [];
  next = 0;
}

-- `start_loop` is the loop that a new thread gives back, by the number of the thread.
unfoldable pub start_loops : (ℕ → ℕ) → ℕ → List ℕ
start_loops start_loop zero = []
start_loops start_loop (suc n) = start_loops start_loop n ++ start_loop n ∷ []

unfoldable pub start : (ℕ → ℕ) → LoopPool → LoopPool
start start_loop pool = record pool {
  loops = pool.loops ++ start_loops start_loop pool.num_threads;
}

-- The position behind, or the first one again.
unfoldable pub advance : LoopPool → LoopPool
advance pool =
    if leb (length pool.loops) (pool.next + 1)
    then record pool { next = 0 }
    else record pool { next = pool.next + 1 }

-- The loop is none where the position is out of range.
unfoldable pub get_next_loop : LoopPool → Option ℕ × LoopPool
get_next_loop pool =
    if is_empty pool.loops
    then (some pool.base_loop, pool)
    else (get_elem? pool.loops pool.next, advance pool)

unfoldable pub get_all_loops : LoopPool → List ℕ
get_all_loops pool = if is_empty pool.loops then pool.base_loop ∷ [] else pool.loops

-- The results of calls one after the other.
unfoldable pub next_loops : ℕ → LoopPool → List (Option ℕ)
next_loops zero pool = []
next_loops (suc n) pool = let (loop, after) = get_next_loop pool in loop ∷ next_loops n after
