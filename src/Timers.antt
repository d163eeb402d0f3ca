-- ===== src/Timers.antt =====
-- src/TimerQueue.cc, src/Timer.cc and include/Timestamp.h: the timers of a loop.
pub mod Queue
pub mod Order
pub mod Arming
pub mod Readings
pub mod Restarts
