-- ===== src/UserStore.antt =====
-- src/UserStore.cc and include/UserStore.h: accounts, sessions and the user file.
pub mod Password
pub mod State
pub mod File
pub mod Accounts
pub mod Sessions
pub mod Hex
pub mod UserLine
pub mod Restore
pub mod Restart
pub mod RateLimit
pub mod Outcome
pub mod Life
