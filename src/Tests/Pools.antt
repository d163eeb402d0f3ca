-- ===== src/Tests/Pools.antt =====
-- The memory pool of memory/memoryPool.cc and the timers of src/TimerQueue.cc at concrete inputs.
use Prim.{tt}
use cpp_ai_service.Base.{
  ℕ, ◌+◌, ◌<◌, ◌≤◌, ◌≡◌, refl, true, false, not, ◌||◌, List, [], ◌∷◌, ◌++◌, Option, some, is_empty,
  max, All, arith,
}
use cpp_ai_service.MemoryPool.Pool.{
  init, take_slot, allocate_new_block, allocate, block_slot, new_slot, deallocate, pad_pointer,
}
use cpp_ai_service.MemoryPool.Buckets.{
  memory_pool_num, source_of, from_pool, initial_pool, source_of_fits,
}
use cpp_ai_service.MemoryPool.Apart.{is_apart, AllApart, in_blocks}
use cpp_ai_service.MemoryPool.Uses.{Use, taking, giving, use_once, use_all}
use cpp_ai_service.MemoryPool.Slots.{pool_after, use_all-AllApart}
use cpp_ai_service.Timers.Queue.{
  Timer, TimerQueue, add_each, delay, expired_at, get_expired, handle_read, left_at, read_timerfd,
  reset, reset_timerfd, restart, restart_or_delete, run_each, set_insert, timespec,
}
use cpp_ai_service.Timers.Order.{expired_at-left_at}
use cpp_ai_service.Timers.Restarts.{IsHeld, IsRestarted, repeating, handle_read_keeps}
use cpp_ai_service.Timers.Arming.{is_armed, handle_read_armed}

-- A new block stands above all others.
abbrev above : List ℕ → ℕ
above [] = 4096
above (block ∷ blocks) = max (block + 4096) (above blocks)

above_all :
    (n : ℕ) (blocks : List ℕ)
    → above blocks ≤ n
    → All (λ (other : ℕ). is_apart 4096 n other ≡ true) blocks
above_all n [] h = tt
above_all n (block ∷ blocks) h = (ground (arith, h), above_all n blocks (omega arith))

abbrev new_above : List ℕ → Option ℕ
new_above blocks = some (above blocks)

above_fresh :
    (blocks : List ℕ) (block : ℕ)
    → new_above blocks ≡ some block
    → All (λ (other : ℕ). is_apart 4096 block other ≡ true) blocks
above_fresh blocks block e = above_all block blocks (ground (arith, e))

-- Slots of 16 bytes: three are taken, the second is freed and taken again.
abbrev some_uses : List Use
some_uses = taking ∷ taking ∷ taking ∷ giving 1 ∷ taking ∷ []

use_all-AllApart_example :
    All
      (λ (slot : ℕ). in_blocks 16 (pool_after new_above 1 some_uses).pool.blocks slot ≡ true)
      (pool_after new_above 1 some_uses).live
    × AllApart 16 (pool_after new_above 1 some_uses).live
use_all-AllApart_example = use_all-AllApart 1 (omega arith) new_above above_fresh some_uses

some_uses_live : (pool_after new_above 1 some_uses).live ≡ 4128 ∷ 4144 ∷ 4112 ∷ []
unfolding use_all use_once allocate block_slot new_slot allocate_new_block take_slot deallocate
    pad_pointer initial_pool init
some_uses_live = refl

source_of_fits_example :
    (index : ℕ) × (source_of 100 ≡ from_pool index)
    × (index < memory_pool_num)
    × (100 ≤ (initial_pool index).slot_size)
    × ((initial_pool index).slot_size < 108)
source_of_fits_example = source_of_fits 100 (omega arith) (omega arith)

abbrev early : Timer
early = record { address = 1; expiration = 10; delta = 5; repeat = true }

abbrev late : Timer
late = record { address = 2; expiration = 20; delta = 0; repeat = false }

abbrev two_timers : List Timer
two_timers = early ∷ late ∷ []

expired_at-left_at_example :
    (expired_at 12 two_timers ++ left_at 12 two_timers ≡ two_timers)
    × All (λ (t : Timer). t.expiration ≤ 12) (expired_at 12 two_timers)
    × All (λ (t : Timer). 12 < t.expiration) (left_at 12 two_timers)
expired_at-left_at_example =
    expired_at-left_at 12 two_timers ((refl, tt), (tt, tt)) (omega arith, (omega arith, tt))

abbrev two_queue : TimerQueue
two_queue = record {
  timers = two_timers;
  armed = some (record { set_at = 3; it_value = (0, 100000) });
  readings = 0;
}

-- The clock shows 9: the descriptor has fired before the time of the first timer.
abbrev slow_clock : ℕ → ℕ
slow_clock reading = reading + 9

abbrev no_adds : ℕ → List Timer
no_adds address = []

handle_read_armed_example :
    is_armed (handle_read slow_clock no_adds two_queue)
    ≡ (not (is_empty (expired_at 9 two_timers)) || is_empty (left_at 9 two_timers))
handle_read_armed_example = handle_read_armed slow_clock no_adds two_queue

-- So no timer is called any more until one is added that is earlier than all others.
not_armed : is_armed (handle_read slow_clock no_adds two_queue) ≡ false
unfolding expired_at left_at
not_armed = handle_read_armed slow_clock no_adds two_queue

abbrev clock_at_12 : ℕ → ℕ
clock_at_12 reading = reading + 12

handle_read_keeps_example :
    All (IsHeld (handle_read clock_at_12 no_adds two_queue)) (left_at 12 two_timers)
    × All
        (IsRestarted clock_at_12 1 (handle_read clock_at_12 no_adds two_queue))
        (repeating (expired_at 12 two_timers))
handle_read_keeps_example = handle_read_keeps clock_at_12 no_adds two_queue

-- The first timer is put back five microseconds after the clock was read once more.
two_queue_after :
    (handle_read clock_at_12 no_adds two_queue).timers
    ≡ (record early { expiration = 18 }) ∷ late ∷ []
unfolding handle_read get_expired read_timerfd expired_at left_at run_each add_each reset
    reset_timerfd restart_or_delete restart set_insert delay timespec
two_queue_after = refl

-- A slot of 24 bytes at 40 is not padded, though 40 is no multiple of 24.
not_padded : pad_pointer 40 24 ≡ 0
unfolding pad_pointer
not_padded = refl
