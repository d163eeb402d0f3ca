-- ===== src/MemoryPool.antt =====
-- include/memoryPool.h and memory/memoryPool.cc: the pools of memory slots.
pub mod Pool
pub mod Apart
pub mod Buckets
pub mod Uses
pub mod Blocks
pub mod Slots
