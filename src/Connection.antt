-- ===== src/Connection.antt =====
-- src/TcpConnection.cc and include/TcpConnection.h: a connection between its socket, its buffers and
-- its channel.
pub mod State
pub mod Sending
pub mod Handlers
pub mod Events
pub mod Writing
pub mod Accepting
pub mod Handling
pub mod Stream
pub mod States
pub mod Closing
