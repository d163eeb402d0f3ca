-- ===== src/AiClient.antt =====
-- src/AiClient.cc and include/AiClient.h: the chat client with its response cache.
pub mod Config
pub mod Reply
pub mod Chat
pub mod Answers
pub mod Repeats
