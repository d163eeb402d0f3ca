-- ===== src/MemoryPool/Pool.antt =====
-- memory/memoryPool.cc: `MemoryPool`. An address is a number; `operator new` is a parameter.
use cpp_ai_service.Base.{
  ℕ, ◌+◌, ◌-◌, ◌*◌, ◌/◌, ◌%◌, ◌^◌, List, [], ◌∷◌, Option, some, leb, ◌>>=◌, if◌then◌else◌,
}

-- `blocks` is the chain from `firstBlock_`, `free_list` the one from `freeList_`.
pub record MemoryPool : Type 0 where
  pub block_size : ℕ
  pub slot_size : ℕ
  pub blocks : List ℕ
  pub cur_slot : ℕ
  pub last_slot : ℕ
  pub free_list : List ℕ

-- The constructor, with the block size that it has where none is given, and `init`.
unfoldable pub init : ℕ → MemoryPool
init size = record {
  block_size = 4096;
  slot_size = size;
  blocks = [];
  cur_slot = 0;
  last_slot = 0;
  free_list = [];
}

-- The difference is that of 64-bit numbers.
unfoldable pub pad_pointer : ℕ → ℕ → ℕ
pad_pointer p align = (align + 2 ^ 64 - p) % 2 ^ 64 % align

unfoldable pub allocate_new_block : ℕ → MemoryPool → MemoryPool
allocate_new_block new_block pool =
    let body = new_block + 8 in
    record pool {
      blocks = new_block ∷ pool.blocks;
      cur_slot = body + pad_pointer body pool.slot_size;
      last_slot = new_block + pool.block_size - pool.slot_size + 1;
      free_list = [];
    }

-- The next slot of the block; a `Slot` has eight bytes.
unfoldable pub take_slot : MemoryPool → ℕ × MemoryPool
take_slot pool = (pool.cur_slot, record pool { cur_slot = pool.cur_slot + pool.slot_size / 8 * 8 })

-- `new` gives the address of a new block, beside those that there are; none is `std::bad_alloc`.
module _ (new : List ℕ → Option ℕ) where
  unfoldable pub new_slot : MemoryPool → Option (ℕ × MemoryPool)
  new_slot pool = do
    new_block ← new pool.blocks
    some (take_slot (allocate_new_block new_block pool))

  unfoldable pub block_slot : MemoryPool → Option (ℕ × MemoryPool)
  block_slot pool =
      if leb pool.last_slot pool.cur_slot then new_slot pool else some (take_slot pool)

  abbrev pub free_slot : MemoryPool → List ℕ → Option (ℕ × MemoryPool)
  free_slot pool [] = block_slot pool
  free_slot pool (slot ∷ free_list) = some (slot, record pool { free_list = free_list })

  unfoldable pub allocate : MemoryPool → Option (ℕ × MemoryPool)
  allocate pool = free_slot pool pool.free_list

-- On a pointer that is not null.
unfoldable pub deallocate : MemoryPool → ℕ → MemoryPool
deallocate pool ptr = record pool { free_list = ptr ∷ pool.free_list }
