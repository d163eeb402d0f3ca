-- ===== src/Lfu/Slices.antt =====
-- include/LFU.h: `KHashLfuCache`, the cache cut into slices by a hash of the key. The hash of the
-- library is a parameter.
use mathlib.Core.List.{map}
use cpp_ai_service.Base.{
  ℕ, zero, suc, ◌+◌, ◌-◌, ◌/◌, ◌%◌, [], ◌∷◌, List, Option, some, Bytes, ltb, if◌then◌else◌, ◌>>=◌,
  get_elem?, replicate,
}
use cpp_ai_service.Lfu.Cache.{Cache, init, put, get, purge}

pub record Slices : Type 0 where
  pub slice_num : ℕ
  pub capacity : ℕ
  pub slices : List Cache

-- `std::ceil(capacity / static_cast<double>(slices))`, of numbers that a double holds exactly.
unfoldable pub slice_size : ℕ → ℕ → ℕ
slice_size capacity slice_num = (capacity + (slice_num - 1)) / slice_num

-- `threads` is `hardware_concurrency()`.
unfoldable pub init_slices : ℕ → ℕ → ℕ → ℕ → Slices
init_slices capacity slice_num max_average_num threads =
    let count = if ltb 0 slice_num then slice_num else threads in
    record {
      slice_num = count;
      capacity = capacity;
      slices = replicate count (init (slice_size capacity count) max_average_num);
    }

unfoldable pub set_slice : List Cache → ℕ → Cache → List Cache
set_slice [] i c = []
set_slice (old ∷ caches) zero c = c ∷ caches
set_slice (old ∷ caches) (suc i) c = old ∷ set_slice caches i c

module _ (hash : Bytes → ℕ) where
  unfoldable pub put_slice : Slices → Bytes → Bytes → Option Slices
  put_slice s key value = do
    let index = hash key % s.slice_num
    slice ← get_elem? s.slices index
    used ← put slice key value
    some (record s { slices = set_slice s.slices index used })

  unfoldable pub get_slice : Slices → Bytes → Option (Slices × Option Bytes)
  get_slice s key = do
    let index = hash key % s.slice_num
    slice ← get_elem? s.slices index
    (used, value) ← get slice key
    some (record s { slices = set_slice s.slices index used }, value)

unfoldable pub purge_slices : Slices → Slices
purge_slices s = record s { slices = map purge s.slices }
