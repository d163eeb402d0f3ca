-- ===== src/Buffer.antt =====
-- include/Buffer.h and src/Buffer.cc: the bytes between the socket and the parser.
pub mod Storage
pub mod Queue
pub mod Reads
