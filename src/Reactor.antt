-- ===== src/Reactor.antt =====
-- Channels and the epoll poller: src/Channel.cc, include/Channel.h, src/EPollPoller.cc.
pub mod Channel
pub mod Epoll
pub mod Poller
pub mod Objects
pub mod Bits
pub mod Updates
pub mod InStep
