-- ===== src/MemoryPool/Uses.antt =====
-- What the owners of the memory do with a pool.
use cpp_ai_service.Base.{ℕ, List, [], ◌∷◌, ◌++◌, Option, none, some, take, drop}
use cpp_ai_service.MemoryPool.Pool.{MemoryPool, allocate, deallocate}

-- A pool with the slots in use.
pub record InUse : Type 0 where
  pub pool : MemoryPool
  pub live : List ℕ

-- What the owners of the memory do: allocate, or free one of the slots in use, by its place.
pub data Use : Type 0 where
  taking : Use
  giving : (place : ℕ) → Use

abbrev pub without_slot : MemoryPool → List ℕ → List ℕ → InUse
without_slot pool before [] = record { pool = pool; live = before }
without_slot pool before (slot ∷ after) = record {
  pool = deallocate pool slot;
  live = before ++ after;
}

-- Where there is no memory the owner has no slot.
abbrev pub with_slot : InUse → Option (ℕ × MemoryPool) → InUse
with_slot u none = u
with_slot u (some (slot, pool)) = record { pool = pool; live = slot ∷ u.live }

module _ (new : List ℕ → Option ℕ) where
  unfoldable pub use_once : InUse → Use → InUse
  use_once u taking = with_slot u (allocate new u.pool)
  use_once u (giving place) = without_slot u.pool (take place u.live) (drop place u.live)

  unfoldable pub use_all : InUse → List Use → InUse
  use_all u [] = u
  use_all u (one ∷ more) = use_all (use_once u one) more
