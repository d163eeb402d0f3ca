-- ===== src/MemoryPool/Buckets.antt =====
-- include/memoryPool.h: the pool that `HashBucket` takes for a size.
use cpp_ai_service.Base.{
  ℕ, ◌+◌, ◌-◌, ◌*◌, ◌/◌, ◌≤◌, ◌<◌, ◌≡◌, refl, false, ltb, ◌==◌, arith, if◌then◌else◌,
}
use cpp_ai_service.MemoryPool.Pool.{MemoryPool, init}

abbrev pub memory_pool_num : ℕ
memory_pool_num = 64

abbrev pub slot_base_size : ℕ
slot_base_size = 8

abbrev pub max_slot_size : ℕ
max_slot_size = 512

-- `initMemoryPool`: the pool of an index.
unfoldable pub initial_pool : ℕ → MemoryPool
initial_pool index = init ((index + 1) * slot_base_size)

-- Where `useMemory` takes the memory from, and where `freeMemory` gives it back.
pub data Source : Type 0 where
  nowhere operator_new : Source
  from_pool : (index : ℕ) → Source

unfoldable pub source_of : ℕ → Source
source_of size =
    if size == 0
    then nowhere
    else if ltb max_slot_size size
    then operator_new
    else from_pool ((size + 7) / slot_base_size - 1)

-- A size from 1 to 512 takes a slot of a pool that there is, whose slots are not smaller than the
-- size, and are larger by less than 8 bytes.
pub source_of_fits :
    (size : ℕ)
    → 0 < size
    → size ≤ max_slot_size
    → (index : ℕ) × (source_of size ≡ from_pool index)
      × (index < memory_pool_num)
      × (size ≤ (initial_pool index).slot_size)
      × ((initial_pool index).slot_size < size + 8)
unfolding source_of initial_pool init
source_of_fits size h k =
    let index = (size + 7) / slot_base_size - 1 in
    let some_bytes : (size == 0) ≡ false = ground arith in
    let small : ltb max_slot_size size ≡ false = ground arith in
    (index, rw (some_bytes, small) refl, omega arith, omega arith, omega arith)
