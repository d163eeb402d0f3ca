-- ===== src/HttpCodec/Escape.antt =====
-- `jsonEscape` against the string reader of `extractJsonStringField`.
use cpp_ai_service.Base.{
  ℕ, ◌≡◌, ◌≢◌, refl, [], ◌∷◌, ◌++◌, append_assoc, append-nil, some, arith, Bytes, All, All-append,
}
use cpp_ai_service.HttpCodec.Strings.{quote, backslash, escape_byte, json_escape}
use cpp_ai_service.HttpCodec.Json.{read_string}

read_string-escape_byte :
    (c : ℕ) (rest parsed : Bytes)
    → read_string (escape_byte c ++ rest) parsed ≡ read_string rest (parsed ++ c ∷ [])
unfolding read_string escape_byte
read_string-escape_byte c [] parsed = ground arith
read_string-escape_byte c (d ∷ rest) parsed = ground arith

-- The reader, at any escaped text with a quote behind it, gives the text back behind what it had
-- read before.
pub read_string-json_escape :
    (s rest parsed : Bytes)
    → read_string (json_escape s ++ quote ∷ rest) parsed ≡ some (parsed ++ s)
unfolding json_escape
read_string-json_escape [] [] parsed = unfold read_string in rw append-nil
read_string-json_escape [] (d ∷ rest) parsed = unfold read_string in rw append-nil
read_string-json_escape (c ∷ s) rest parsed =
    simp (append_assoc, read_string-escape_byte, read_string-json_escape s)

-- A byte that may stand inside a JSON string as `jsonEscape` writes it.
abbrev pub Plain : ℕ → Type 0
Plain c = (c ≢ quote) × (c ≢ backslash) × (c ≢ 10) × (c ≢ 13) × (c ≢ 9)

escape_byte-Plain : (c : ℕ) → Plain c → escape_byte c ≡ c ∷ []
unfolding escape_byte
escape_byte-Plain c h = ground arith

-- Text with nothing to escape is written as it is.
pub json_escape-Plain : (s : Bytes) → All Plain s → json_escape s ≡ s
unfolding json_escape
json_escape-Plain [] h = refl
json_escape-Plain (c ∷ s) h = rw (escape_byte-Plain c h.0, json_escape-Plain s h.1)

abbrev pub NoControl : ℕ → Type 0
NoControl c = (c ≢ 10) × (c ≢ 13) × (c ≢ 9)

escape_byte-NoControl : (c : ℕ) → All NoControl (escape_byte c)
unfolding escape_byte
escape_byte-NoControl c = ground arith

-- No escaped text holds a line end or a tab, so a record of the user file stays on one line.
pub json_escape-NoControl : (s : Bytes) → All NoControl (json_escape s)
unfolding json_escape
json_escape-NoControl [] = tt
json_escape-NoControl (c ∷ s) = All-append _ _ _ (escape_byte-NoControl c) (json_escape-NoControl s)
