-- ===== src/AiClient/Reply.antt =====
-- src/AiClient.cc: this file's own `extractJsonStringField`, which looks for the next quote behind
-- the colon whatever stands between them.
use cpp_ai_service.Base.{
  ◌+◌, Bool, true, false, [], ◌∷◌, ◌++◌, Option, none, some, Bytes, ◌==◌, if◌then◌else◌, ◌>>=◌,
  find, find_from, length, drop,
}
use cpp_ai_service.HttpCodec.Strings.{quote, backslash}
use cpp_ai_service.HttpCodec.Json.{quoted, unescape_byte}

-- The loop from the opening quote on, with its flag `escaped`.
unfoldable pub read_reply : Bytes → Bool → Bytes → Option Bytes
read_reply [] escaped parsed = none
read_reply (ch ∷ s) true parsed = read_reply s false (parsed ++ unescape_byte ch ∷ [])
read_reply (ch ∷ s) false parsed =
    let wait = read_reply s true parsed in
    let more = read_reply s false (parsed ++ ch ∷ []) in
    if ch == backslash then wait else if ch == quote then some parsed else more

unfoldable pub extract_field : Bytes → Bytes → Option Bytes
extract_field json field = do
  key_pos ← find (quoted field) json
  colon ← find_from (b':' ∷ []) json (key_pos + length (quoted field))
  open_quote ← find_from (quote ∷ []) json (colon + 1)
  read_reply (drop (open_quote + 1) json) false []
