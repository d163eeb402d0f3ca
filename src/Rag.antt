-- ===== src/Rag.antt =====
-- src/RagStore.cc and include/RagStore.h: the in-memory document store and its keyword search.
pub mod Tokens
pub mod Store
pub mod Words
pub mod Documents
