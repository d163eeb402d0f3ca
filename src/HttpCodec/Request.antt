-- ===== src/HttpCodec/Request.antt =====
-- src/HttpCodec.cc: `parseHttpRequest`. The fields that a refused request leaves half filled are
-- only logged, so a refusal is `none`.
use cpp_ai_service.Base.{
  ℕ, zero, suc, ◌+◌, ◌-◌, ◌*◌, ◌^◌, ◌%◌, Bool, true, false, List, [], ◌∷◌, ◌++◌, Option, none, some,
  Bytes, codes, ltb, leb, ◌==◌, if◌then◌else◌, ◌>>=◌, is_space, is_digit, is_empty, find, find_from,
  length, take, drop,
}
use cpp_ai_service.Base.Dictionary.{bytes_key, lookup, insert}
use cpp_ai_service.HttpCodec.Strings.{crlf, to_lower, skip_spaces, trim}

pub record HttpRequest : Type 0 where
  pub method : Bytes
  pub path : Bytes
  pub version : Bytes
  pub headers : List (Bytes × Bytes)
  pub body : Bytes

-- The bytes before the first space, and those from it on.
unfoldable pub word : Bytes → Bytes
word [] = []
word (c ∷ s) = let rest = word s in if is_space c then [] else c ∷ rest

unfoldable pub past_word : Bytes → Bytes
past_word [] = []
past_word (c ∷ s) = let rest = past_word s in if is_space c then c ∷ s else rest

-- `stream >> text`: the word behind the spaces, which must not be empty.
unfoldable pub read_word : Bytes → Option (Bytes × Bytes)
unfolding word past_word skip_spaces
read_word s =
    let rest = skip_spaces s in if is_empty rest then none else some (word rest, past_word rest)

-- `strtoul(text, nullptr, 10)` with a 64-bit result.
unfoldable pub digits_value : ℕ → Bytes → ℕ
digits_value n [] = n
digits_value n (c ∷ s) =
    let more = digits_value (n * 10 + (c - b'0')) s in if is_digit c then more else n

abbrev pub size_limit : ℕ
size_limit = 2 ^ 64

-- The number behind the sign; what does not fit is the largest number.
unfoldable pub signed_value : Bool → Bytes → ℕ
unfolding digits_value
signed_value negative s =
    let n = digits_value 0 s in
    if leb size_limit n
    then size_limit - 1
    else if negative
    then (size_limit - n) % size_limit
    else n

unfoldable pub read_sign : Bytes → ℕ
unfolding signed_value
read_sign [] = 0
read_sign (c ∷ s) =
    if c == b'-'
    then signed_value true s
    else if c == b'+'
    then signed_value false s
    else signed_value false (c ∷ s)

unfoldable pub strtoul : Bytes → ℕ
unfolding read_sign skip_spaces
strtoul s = read_sign (skip_spaces s)

-- One header line; a line with no colon is passed over.
unfoldable pub add_header : Bytes → List (Bytes × Bytes) → List (Bytes × Bytes)
unfolding find to_lower trim insert
add_header line headers = elim (find (b':' ∷ []) line) [
  | none ↦ headers
  | some colon ↦ insert (to_lower (trim (take colon line))) (trim (drop (colon + 1) line)) headers
]

-- The loop over the header lines, from `line_start` up to `header_end`. Each round passes a line
-- end, so as many rounds as there are bytes are enough.
unfoldable pub read_headers :
    ℕ → Bytes → ℕ → ℕ → List (Bytes × Bytes) → Option (List (Bytes × Bytes))
unfolding find_from find add_header
read_headers zero raw line_start header_end headers =
    if ltb line_start header_end then none else some headers
read_headers (suc rounds) raw line_start header_end headers =
    let next = do
      line_end ← find_from crlf raw line_start
      if ltb header_end line_end
          then none
          else read_headers rounds raw (line_end + 2) header_end
              (add_header (take (line_end - line_start) (drop line_start raw)) headers)
    in if ltb line_start header_end then next else some headers

-- `body.resize(expected)` where the body is longer than the announced length.
unfoldable pub cut_body : List (Bytes × Bytes) → Bytes → Bytes
unfolding lookup strtoul
cut_body headers body = elim (lookup (codes "content-length") headers) [
  | none ↦ body
  | some text ↦
      let expected = strtoul text in if ltb expected (length body) then take expected body else body
]

unfoldable pub parse_http_request : Bytes → Option HttpRequest
unfolding find read_word read_headers cut_body
parse_http_request raw = do
  request_line_end ← find crlf raw
  (method, after_method) ← read_word (take request_line_end raw)
  (path, after_path) ← read_word after_method
  (version, _) ← read_word after_path
  header_end ← find (crlf ++ crlf) raw
  headers ← read_headers (length raw) raw (request_line_end + 2) header_end []
  some (record {
    method = method;
    path = path;
    version = version;
    headers = headers;
    body = cut_body headers (drop (header_end + 4) raw);
  })
