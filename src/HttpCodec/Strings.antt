-- ===== src/HttpCodec/Strings.antt =====
-- src/HttpCodec.cc: `toLower`, `trim`, `jsonEscape`, `jsonError`, `httpResponse`, `jsonResponse`.
use cpp_ai_service.Base.{
  ℕ, zero, suc, ◌+◌, ◌/◌, ◌%◌, ◌&&◌, [], ◌∷◌, ◌++◌, Bytes, codes, ltb, ◌==◌, if◌then◌else◌,
  is_empty, is_space, lower_byte, length,
}

abbrev pub quote : ℕ
quote = b'"'

abbrev pub backslash : ℕ
backslash = b'\\'

abbrev pub crlf : Bytes
crlf = 13 ∷ 10 ∷ []

unfoldable pub to_lower : Bytes → Bytes
to_lower [] = []
to_lower (c ∷ s) = lower_byte c ∷ to_lower s

-- The first loop of `trim`, and the skipping of spaces by other readers.
unfoldable pub skip_spaces : Bytes → Bytes
skip_spaces [] = []
skip_spaces (c ∷ s) = let rest = skip_spaces s in if is_space c then rest else c ∷ s

-- The second loop: the spaces at the end are dropped.
unfoldable pub drop_end_spaces : Bytes → Bytes
drop_end_spaces [] = []
drop_end_spaces (c ∷ s) =
    let rest = drop_end_spaces s in if is_space c && is_empty rest then [] else c ∷ rest

unfoldable pub trim : Bytes → Bytes
unfolding skip_spaces drop_end_spaces
trim s = drop_end_spaces (skip_spaces s)

-- What one round of `jsonEscape` appends.
unfoldable pub escape_byte : ℕ → Bytes
escape_byte c =
    if c == backslash
    then backslash ∷ backslash ∷ []
    else if c == quote
    then backslash ∷ quote ∷ []
    else if c == 10
    then backslash ∷ b'n' ∷ []
    else if c == 13
    then backslash ∷ b'r' ∷ []
    else if c == 9
    then backslash ∷ b't' ∷ []
    else c ∷ []

unfoldable pub json_escape : Bytes → Bytes
unfolding escape_byte
json_escape [] = []
json_escape (c ∷ s) = escape_byte c ++ json_escape s

-- A JSON string literal, quotes included.
abbrev pub json_string : Bytes → Bytes
json_string s = quote ∷ (json_escape s ++ quote ∷ [])

unfoldable pub json_error : Bytes → Bytes
unfolding json_escape
json_error message = codes "{\"ok\":false,\"error\":\"" ++ (json_escape message ++ codes "\"}")

-- `out << n` for an unsigned number: its digits, the first one first. Each round takes a digit off.
unfoldable pub digits : ℕ → ℕ → Bytes → Bytes
digits zero n out = out
digits (suc rounds) n out =
    let next = (b'0' + n % 10) ∷ out in
    let more = digits rounds (n / 10) next in if ltb n 10 then next else more

unfoldable pub decimal : ℕ → Bytes
unfolding digits
decimal n = digits (suc n) n []

unfoldable pub http_response : Bytes → Bytes → Bytes → Bytes
unfolding decimal
http_response status content_type body =
    codes "HTTP/1.1 "
    ++ (status
        ++ (crlf
            ++ (codes "Content-Type: "
                ++ (content_type
                    ++ (crlf
                        ++ (codes "Content-Length: "
                            ++ (decimal (length body)
                                ++ (crlf
                                    ++ (codes "Connection: close"
                                        ++ (crlf ++ (crlf ++ body)))))))))))

unfoldable pub json_response : Bytes → Bytes → Bytes
unfolding http_response
json_response status body = http_response status (codes "application/json; charset=utf-8") body
