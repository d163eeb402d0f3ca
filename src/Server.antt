-- ===== src/Server.antt =====
-- src/TcpServer.cc, src/Acceptor.cc and src/EventLoopThreadPool.cc: connections are accepted, named and
-- given to the loops.
pub mod LoopPool
pub mod RoundRobin
pub mod Acceptance
pub mod Identifiers
pub mod Names
