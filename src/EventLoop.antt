-- ===== src/EventLoop.antt =====
-- src/EventLoop.cc: the queue of tasks, the wake-ups and the rounds of the loop.
pub mod Tasks
pub mod Rounds
pub mod Wakeups
pub mod Batch
