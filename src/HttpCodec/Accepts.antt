-- ===== src/HttpCodec/Accepts.antt =====
-- Which texts `parseHttpRequest` accepts, whatever stands in the header lines.
use cpp_ai_service.Base.{
  ℕ, zero, suc, ◌+◌, ◌-◌, ◌<◌, ◌≡◌, true, false, Option, some, [], ◌∷◌, ◌++◌, arith, Bytes, List,
  starts_with, find, length, take, drop, inl, inr, Bool-cases, ltb, ◌>>=◌,
}
use cpp_ai_service.Base.Finding.{starts_with-find, find_from-le, starts_with-append}
use cpp_ai_service.HttpCodec.Strings.{crlf}
use cpp_ai_service.HttpCodec.Request.{
  read_word, read_headers, add_header, cut_body, parse_http_request,
}

-- With the blank line's end at `stop` and enough rounds, the loop over the lines comes to its end.
read_headers_total :
    (rounds : ℕ) (raw : Bytes) (start stop : ℕ) (headers : List (Bytes × Bytes))
    → starts_with crlf (drop stop raw) ≡ true
    → stop < rounds + start
    → (all : List (Bytes × Bytes)) × (read_headers rounds raw start stop headers ≡ some all)
unfolding read_headers
read_headers_total zero raw start stop headers at lt = (headers, ground arith)
read_headers_total (suc rounds) raw start stop headers at lt = elim (Bool-cases (ltb start stop)) [
  | inr over ↦ (headers, rw over)
  | inl more ↦
      let (line_end, found, after, before) = find_from-le crlf raw start stop at (ground arith) in
      let line = take (line_end - start) (drop start raw) in
      let (all, rest) =
        read_headers_total rounds raw (line_end + 2) stop (add_header line headers) at
          (omega arith) in
      let within : ltb stop line_end ≡ false = ground arith in (all, rw (more, found, within) rest)
]

in_range :
    (x : ℕ) (needle s : Bytes) (i : ℕ) → starts_with (x ∷ needle) (drop i s) ≡ true → i < length s
unfolding starts_with
in_range x needle [] zero h = cc
in_range x needle [] (suc i) h = cc
in_range x needle (c ∷ s) zero h = omega arith
in_range x needle (c ∷ s) (suc i) h = omega (arith, in_range x needle s i h)

-- The three words of a request line.
unfoldable pub line_words : Bytes → Option (Bytes × Bytes × Bytes)
line_words line = do
  (method, after_method) ← read_word line
  (path, after_path) ← read_word after_method
  (version, _) ← read_word after_path
  some (method, path, version)

-- The parser's result from the results of its steps.
pub parse_of_steps :
    (raw : Bytes) {line_end header_end : ℕ} {method path version : Bytes}
    {headers : List (Bytes × Bytes)}
    → find crlf raw ≡ some line_end
    → line_words (take line_end raw) ≡ some (method, path, version)
    → find (crlf ++ crlf) raw ≡ some header_end
    → read_headers (length raw) raw (line_end + 2) header_end [] ≡ some headers
    → parse_http_request raw
      ≡ some (record {
        method = method;
        path = path;
        version = version;
        headers = headers;
        body = cut_body headers (drop (header_end + 4) raw);
      })
unfolding parse_http_request line_words
parse_of_steps raw at_line words at_blank read = ground arith

-- A text with a line end, three words before the first one, and a blank line is accepted with these
-- words and the body behind the blank line, cut to the announced length.
pub parse_complete :
    (raw : Bytes) {line_end header_end : ℕ} {method path version : Bytes}
    → find crlf raw ≡ some line_end
    → line_words (take line_end raw) ≡ some (method, path, version)
    → find (crlf ++ crlf) raw ≡ some header_end
    → (headers : List (Bytes × Bytes)) × (parse_http_request raw
        ≡ some (record {
          method = method;
          path = path;
          version = version;
          headers = headers;
          body = cut_body headers (drop (header_end + 4) raw);
        }))
parse_complete raw {line_end} {header_end} at_line words at_blank =
    let blank = starts_with-find (crlf ++ crlf) raw at_blank in
    let (headers, read) =
      read_headers_total (length raw) raw (line_end + 2) header_end []
        (starts_with-append crlf crlf (drop header_end raw) blank)
        (omega (arith, in_range 13 (10 ∷ crlf) raw header_end blank)) in
    (headers, parse_of_steps raw at_line words at_blank read)
