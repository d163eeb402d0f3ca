-- ===== src/HttpCodec/Sound.antt =====
-- `parseHttpRequest` accepts only the texts of requests.
use cpp_ai_service.Base.{
  ◌≡◌, ◌++◌, ◌+◌, Bytes, [], find, length, take, drop, inl, inr, Option-cases, arith, subst, some,
}
use cpp_ai_service.HttpCodec.Strings.{crlf}
use cpp_ai_service.HttpCodec.Request.{
  HttpRequest, read_word, read_headers, cut_body, parse_http_request,
}
use cpp_ai_service.HttpCodec.Shape.{IsRequestText, shape_of_steps}

-- A text that is accepted is a first line, lines that are not empty, a blank line and what follows. The
-- first line starts with the method, the path and the version, which are words without spaces, with
-- spaces between them. The headers are those that `parseHttpRequest` adds for the lines in their order,
-- and each is said by a line: a name up to the first colon, trimmed and in small letters, and the
-- trimmed text behind the colon. The body is the start of what follows: all of it, or as much as the
-- content-length header announces where that is less.
pub parse_http_request-IsRequestText :
    (raw : Bytes) {request : HttpRequest}
    → parse_http_request raw ≡ some request
    → IsRequestText raw request
unfolding parse_http_request
parse_http_request-IsRequestText raw {request} h = elim (Option-cases (find crlf raw)) [
  | inl e ↦ absurd (ground arith)
  | inr (line_end, e) ↦ elim (Option-cases (read_word (take line_end raw))) [
    | inl e' ↦ absurd (ground arith)
    | inr ((method, after_method), e₁) ↦ elim (Option-cases (read_word after_method)) [
      | inl e' ↦ absurd (ground arith)
      | inr ((path, after_path), e₂) ↦ elim (Option-cases (read_word after_path)) [
        | inl e' ↦ absurd (ground arith)
        | inr ((version, after_version), e₃) ↦ elim (Option-cases (find (crlf ++ crlf) raw)) [
          | inl e' ↦ absurd (ground arith)
          | inr (stop, e₄) ↦
              elim (Option-cases (read_headers (length raw) raw (line_end + 2) stop [])) [
                | inl e' ↦ absurd (ground arith)
                | inr (headers, e₅) ↦
                    let result : HttpRequest = record {
                      method = method;
                      path = path;
                      version = version;
                      headers = headers;
                      body = cut_body headers (drop (stop + 4) raw);
                    } in
                    let same : result ≡ request = ground arith in
                    subst (IsRequestText raw) same (shape_of_steps raw e e₁ e₂ e₃ e₄ e₅)
              ]
        ]
      ]
    ]
  ]
]
