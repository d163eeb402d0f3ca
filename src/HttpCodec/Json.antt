-- ===== src/HttpCodec/Json.antt =====
-- src/HttpCodec.cc: `extractJsonStringField`.
use cpp_ai_service.Base.{
  ℕ, ◌+◌, [], ◌∷◌, ◌++◌, Option, none, some, Bytes, ◌==◌, if◌then◌else◌, ◌>>=◌, find, find_from,
  length, drop,
}
use cpp_ai_service.HttpCodec.Strings.{quote, backslash, skip_spaces}

-- The byte that a backslash and `c` stand for.
unfoldable pub unescape_byte : ℕ → ℕ
unescape_byte c = if c == b'n' then 10 else if c == b'r' then 13 else if c == b't' then 9 else c

-- The loop behind the opening quote: the text up to the closing one, or no result at the end.
unfoldable pub read_string : Bytes → Bytes → Option Bytes
unfolding unescape_byte
read_string [] parsed = none
read_string (ch ∷ []) parsed =
    if ch == quote then some parsed else read_string [] (parsed ++ ch ∷ [])
read_string (ch ∷ escaped ∷ rest) parsed =
    let past = read_string rest (parsed ++ unescape_byte escaped ∷ []) in
    let plain = read_string (escaped ∷ rest) (parsed ++ ch ∷ []) in
    if ch == quote then some parsed else if ch == backslash then past else plain

-- Behind the colon: spaces, then a quote, or else the value is no string.
unfoldable pub read_quoted : Bytes → Option Bytes
unfolding read_string
read_quoted [] = none
read_quoted (c ∷ s) = if c == quote then read_string s [] else none

abbrev pub quoted : Bytes → Bytes
quoted field = quote ∷ (field ++ quote ∷ [])

unfoldable pub extract_json_string_field : Bytes → Bytes → Option Bytes
unfolding find find_from read_quoted skip_spaces
extract_json_string_field json field = do
  key_pos ← find (quoted field) json
  colon ← find_from (b':' ∷ []) json (key_pos + length (quoted field))
  read_quoted (skip_spaces (drop (colon + 1) json))
