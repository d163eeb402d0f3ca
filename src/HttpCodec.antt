-- ===== src/HttpCodec.antt =====
-- src/HttpCodec.cc: text helpers, JSON fields, HTTP requests and responses.
pub mod Strings
pub mod Json
pub mod Request
pub mod Escape
pub mod Accepts
pub mod RoundTrip
pub mod Lines
pub mod Said
pub mod Shape
pub mod Sound
pub mod Fields
pub mod Numbers
