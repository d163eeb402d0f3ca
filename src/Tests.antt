-- ===== src/Tests.antt =====
-- Runs of the code's models, and the theorems at concrete inputs.
pub mod Requests
pub mod Users
pub mod Caches
pub mod Buffers
pub mod Services
pub mod Loops
pub mod Reactors
pub mod Connections
pub mod Pools
pub mod Servers
pub mod Replies
