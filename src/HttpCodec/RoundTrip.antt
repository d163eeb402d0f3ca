-- ===== src/HttpCodec/RoundTrip.antt =====
-- `parseHttpRequest` on a request as a client writes it.
use cpp_ai_service.Base.{
  ℕ, zero, suc, ◌+◌, ◌-◌, ◌≤◌, ◌<◌, ◌≡◌, ◌≢◌, refl, ap, true, false, Option, some, [], ◌∷◌, ◌++◌,
  arith, Bytes, List, find, length, take, drop, ◌∙◌, ltb, All, All-append, is_space, append_assoc,
  length-append, take-append_length, drop-append_length,
}
use cpp_ai_service.Base.Finding.{find_past, find_here, find_from-some, drop-drop, starts_with_self}
use cpp_ai_service.HttpCodec.Strings.{crlf, skip_spaces}
use cpp_ai_service.HttpCodec.Request.{
  HttpRequest, word, past_word, read_word, read_headers, add_header, cut_body, parse_http_request,
}
use cpp_ai_service.HttpCodec.Accepts.{line_words, parse_of_steps}

abbrev pub IsWordByte : ℕ → Type 0
IsWordByte c = is_space c ≡ false

-- A word of the request line: not empty, and with no space.
abbrev pub IsWord : Bytes → Type 0
IsWord [] = ⊥
IsWord (c ∷ s) = IsWordByte c × All IsWordByte s

-- A header line: not empty, and with no carriage return.
abbrev pub IsLine : Bytes → Type 0
IsLine [] = ⊥
IsLine (c ∷ s) = (c ≢ 13) × All (λ d. d ≢ 13) s

abbrev pub request_line : Bytes → Bytes → Bytes → Bytes
request_line method path version = method ++ b' ' ∷ (path ++ b' ' ∷ version)

abbrev pub header_block : List Bytes → Bytes
header_block [] = []
header_block (line ∷ lines) = line ++ (crlf ++ header_block lines)

-- The text of a request.
abbrev pub request_text : Bytes → List Bytes → Bytes → Bytes
request_text line lines body = line ++ (crlf ++ (header_block lines ++ (crlf ++ body)))

-- The headers that the lines say, the later ones winning.
abbrev pub add_headers : List Bytes → List (Bytes × Bytes) → List (Bytes × Bytes)
add_headers [] headers = headers
add_headers (line ∷ lines) headers = add_headers lines (add_header line headers)

word-append : (s rest : Bytes) → All IsWordByte s → word (s ++ b' ' ∷ rest) ≡ s
unfolding word
word-append [] rest h = refl
word-append (c ∷ s) rest h = ground (arith, word-append s rest h.1)

past_word-append : (s rest : Bytes) → All IsWordByte s → past_word (s ++ b' ' ∷ rest) ≡ b' ' ∷ rest
unfolding past_word
past_word-append [] rest h = refl
past_word-append (c ∷ s) rest h = ground (arith, past_word-append s rest h.1)

word_whole : (s : Bytes) → All IsWordByte s → word s ≡ s
unfolding word
word_whole [] h = refl
word_whole (c ∷ s) h = ground (arith, word_whole s h.1)

read_word-append :
    (s rest : Bytes) → IsWord s → read_word (s ++ b' ' ∷ rest) ≡ some (s, b' ' ∷ rest)
unfolding read_word skip_spaces
read_word-append [] rest h = absurd h
read_word-append (c ∷ s) rest h =
    ground (arith, word-append (c ∷ s) rest h, past_word-append (c ∷ s) rest h)

read_word_last : (s : Bytes) → IsWord s → read_word s ≡ some (s, past_word s)
unfolding read_word skip_spaces
read_word_last [] h = absurd h
read_word_last (c ∷ s) h = ground (arith, word_whole (c ∷ s) h)

read_word_space : (s : Bytes) → read_word (b' ' ∷ s) ≡ read_word s
unfolding read_word skip_spaces
read_word_space s = refl

line_words-request_line :
    (method path version : Bytes)
    → IsWord method
    → IsWord path
    → IsWord version
    → line_words (request_line method path version) ≡ some (method, path, version)
unfolding line_words
line_words-request_line method path version hm hp hv = ground (
  arith,
  read_word-append method (path ++ b' ' ∷ version) hm,
  read_word_space (path ++ b' ' ∷ version),
  read_word-append path version hp,
  read_word_space version,
  read_word_last version hv,
)

find_past_crlf :
    (c : ℕ) (s : Bytes) {i : ℕ}
    → c ≢ 13
    → find (crlf ++ crlf) (c ∷ s) ≡ some i
    → find (crlf ++ crlf) (13 ∷ 10 ∷ c ∷ s) ≡ some (suc (suc i))
unfolding find
find_past_crlf c s h found = ground arith

find_blank :
    (lines : List Bytes) (body : Bytes)
    → All IsLine lines
    → find (crlf ++ crlf) (crlf ++ (header_block lines ++ (crlf ++ body)))
      ≡ some (length (header_block lines))
find_blank [] body h =
    find_here (crlf ++ crlf) (crlf ++ (crlf ++ body)) (starts_with_self (crlf ++ crlf) body)
find_blank ([] ∷ lines) body h = absurd h.0
find_blank ((c ∷ s) ∷ lines) body h =
    let rest = header_block lines ++ (crlf ++ body) in
    let after = find_past 13 (10 ∷ crlf) (c ∷ s) (crlf ++ rest) h.0 (find_blank lines body h.1) in
    let past = find_past_crlf c (s ++ (crlf ++ rest)) h.0.0 after in
    let size : suc (suc (length (c ∷ s) + length (header_block lines)))
        ≡ length (header_block ((c ∷ s) ∷ lines)) =
      omega (arith, length-append (c ∷ s) (crlf ++ header_block lines)) in
    rw (append_assoc) (past ∙ ap some size)

find_line_end :
    (line rest : Bytes)
    → All (λ d. d ≢ 13) line
    → find crlf (line ++ (crlf ++ rest)) ≡ some (length line)
find_line_end line rest h =
    find_past 13 (10 ∷ []) line (crlf ++ rest) h
      (find_here crlf (crlf ++ rest) (starts_with_self crlf rest))
    ∙ ap some (let e : length line + 0 ≡ length line = omega arith in e)

IsLine-All : (line : Bytes) → IsLine line → All (λ d. d ≢ 13) line
IsLine-All [] h = absurd h
IsLine-All (c ∷ s) h = h

IsLine-pos : (line : Bytes) → IsLine line → 0 < length line
IsLine-pos [] h = absurd h
IsLine-pos (c ∷ s) h = omega arith

read_headers-header_block :
    (lines : List Bytes) (rounds : ℕ) (raw body : Bytes) (start stop : ℕ)
    (headers : List (Bytes × Bytes))
    → All IsLine lines
    → length lines ≤ rounds
    → stop + 2 ≡ start + length (header_block lines)
    → drop start raw ≡ header_block lines ++ (crlf ++ body)
    → read_headers rounds raw start stop headers ≡ some (add_headers lines headers)
unfolding read_headers
read_headers-header_block [] zero raw body start stop headers h few e at = ground arith
read_headers-header_block [] (suc rounds) raw body start stop headers h few e at = ground arith
read_headers-header_block (line ∷ lines) zero raw body start stop headers h few e at =
    absurd (omega arith)
read_headers-header_block (line ∷ lines) (suc rounds) raw body start stop headers h few e at =
    let rest = header_block lines ++ (crlf ++ body) in
    let at' : drop start raw ≡ line ++ (crlf ++ rest) =
      at ∙ append_assoc line (crlf ++ header_block lines) (crlf ++ body) in
    let size = length-append line (crlf ++ header_block lines) in
    let positive = IsLine-pos line h.0 in
    let found : find crlf (drop start raw) ≡ some (length line) =
      rw at' (find_line_end line rest (IsLine-All line h.0)) in
    let found' = find_from-some crlf raw start found in
    let taken : take (start + length line - start) (drop start raw) ≡ line =
      let k : start + length line - start ≡ length line = omega arith in
      rw (k, at') (take-append_length line (crlf ++ rest)) in
    let dropped : drop (start + length line + 2) raw ≡ rest =
      let k : start + length line + 2 ≡ start + (length line + 2) = omega arith in
      rw
        (
          k,
          ← drop-drop (length line + 2) start raw,
          at',
          ← drop-drop 2 (length line) (line ++ (crlf ++ rest)),
          drop-append_length line (crlf ++ rest),
        )
        refl in
    let next =
      read_headers-header_block lines rounds raw body (start + length line + 2) stop
        (add_header line headers) h.1 (omega arith) (omega arith) dropped in
    let more : ltb start stop ≡ true = ground arith in
    let within : ltb stop (start + length line) ≡ false = ground arith in
    rw (more, found', within, taken) next

-- The number of the lines is below the size of the whole text.
lines-le : (lines : List Bytes) → length lines ≤ length (header_block lines)
lines-le [] = omega arith
lines-le (line ∷ lines) =
    omega (arith, length-append line (crlf ++ header_block lines), lines-le lines)

abbrev NoReturn : Bytes → Type 0
NoReturn = All (λ d. d ≢ 13)

word-NoReturn : (s : Bytes) → All IsWordByte s → NoReturn s
word-NoReturn [] h = tt
word-NoReturn (c ∷ s) h = (ground arith, word-NoReturn s h.1)

IsWord-NoReturn : (s : Bytes) → IsWord s → NoReturn s
IsWord-NoReturn [] h = absurd h
IsWord-NoReturn (c ∷ s) h = word-NoReturn (c ∷ s) h

request_line-NoReturn :
    (method path version : Bytes)
    → IsWord method
    → IsWord path
    → IsWord version
    → NoReturn (request_line method path version)
request_line-NoReturn method path version hm hp hv =
    All-append _ method (b' ' ∷ (path ++ b' ' ∷ version)) (IsWord-NoReturn method hm) (
      omega arith,
      All-append _ path (b' ' ∷ version) (IsWord-NoReturn path hp)
          (omega arith, IsWord-NoReturn version hv),
    )

abbrev parsed : Bytes → Bytes → Bytes → List (Bytes × Bytes) → Bytes → Option HttpRequest
parsed method path version headers rest = some (record {
  method = method;
  path = path;
  version = version;
  headers = headers;
  body = cut_body headers rest;
})

request_text_parts :
    (line : Bytes) (lines : List Bytes) (body : Bytes) (method path version : Bytes)
    → NoReturn line
    → line_words line ≡ some (method, path, version)
    → All IsLine lines
    → parse_http_request (request_text line lines body)
      ≡ some (record {
        method = method;
        path = path;
        version = version;
        headers = add_headers lines [];
        body = cut_body (add_headers lines []) body;
      })
request_text_parts line lines body method path version clean words h =
    let raw = request_text line lines body in
    let block = header_block lines in
    let rest = block ++ (crlf ++ body) in
    let at_line = find_line_end line rest clean in
    let at_blank : find (crlf ++ crlf) raw ≡ some (length line + length block) =
      find_past 13 (10 ∷ crlf) line (crlf ++ rest) clean (find_blank lines body h) in
    let taken : take (length line) raw ≡ line = take-append_length line (crlf ++ rest) in
    let at_lines : drop (length line + 2) raw ≡ rest =
      rw (← drop-drop 2 (length line) raw, drop-append_length line (crlf ++ rest)) refl in
    let at_body : drop (length line + length block + 4) raw ≡ body =
      let k : length line + length block + 4 ≡ length line + 2 + (length block + 2) = omega arith in
      rw
        (
          k,
          ← drop-drop (length block + 2) (length line + 2) raw,
          at_lines,
          ← drop-drop 2 (length block) rest,
          drop-append_length block (crlf ++ body),
        )
        refl in
    let headers : read_headers (length raw) raw (length line + 2) (length line + length block) []
        ≡ some (add_headers lines []) =
      read_headers-header_block lines (length raw) raw body (length line + 2)
        (length line + length block) [] h
        (omega (
          arith,
          lines-le lines,
          length-append line (crlf ++ rest),
          length-append block (crlf ++ body),
        ))
        (omega arith) at_lines in
    let words' : line_words (take (length line) raw) ≡ some (method, path, version) =
      rw taken words in
    parse_of_steps raw at_line words' at_blank headers
    ∙ ap (parsed method path version (add_headers lines [])) at_body

-- A request line of three words, header lines that are not empty and hold no carriage return, a
-- blank line and any body are parsed into the three words, the headers of the lines in their order,
-- and the body, cut to the announced length where it is longer.
pub parse_http_request-request_text :
    (method path version : Bytes) (lines : List Bytes) (body : Bytes)
    → IsWord method
    → IsWord path
    → IsWord version
    → All IsLine lines
    → parse_http_request (request_text (request_line method path version) lines body)
      ≡ some (record {
        method = method;
        path = path;
        version = version;
        headers = add_headers lines [];
        body = cut_body (add_headers lines []) body;
      })
parse_http_request-request_text method path version lines body hm hp hv h =
    request_text_parts (request_line method path version) lines body method path version
      (request_line-NoReturn method path version hm hp hv)
      (line_words-request_line method path version hm hp hv) h
