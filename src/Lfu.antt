-- ===== src/Lfu.antt =====
-- include/LFU.h: the least-frequently-used cache `KLfuCache` and its slices `KHashLfuCache`.
pub mod Cache
pub mod Slices
pub mod Linked
pub mod Counting
pub mod Ageing
pub mod Invariant
pub mod Counted
pub mod Uses
pub mod Puts
pub mod Evictions
pub mod Stores
pub mod Refreshes
pub mod Totals
pub mod Runs
pub mod Sliced
pub mod Recall
