-- ===== src/Tests/Requests.antt =====
-- The codec of src/HttpCodec.cc at concrete inputs.
use cpp_ai_service.Base.{
  ◌≡◌, refl, none, some, [], ◌∷◌, ◌++◌, arith, Bytes, List, codes, All, same_bytes, before_bytes,
  find, take, drop,
}
use cpp_ai_service.HttpCodec.Strings.{crlf, quote, json_escape}
use cpp_ai_service.HttpCodec.Request.{HttpRequest, read_word, parse_http_request, cut_body}
use cpp_ai_service.HttpCodec.Json.{read_string, extract_json_string_field}
use cpp_ai_service.HttpCodec.Escape.{NoControl, read_string-json_escape, json_escape-NoControl}
use cpp_ai_service.HttpCodec.Shape.{IsRequestText}
use cpp_ai_service.HttpCodec.Sound.{parse_http_request-IsRequestText}
use cpp_ai_service.HttpCodec.Accepts.{line_words, parse_complete}
use cpp_ai_service.HttpCodec.RoundTrip.{
  request_line, request_text, add_headers, parse_http_request-request_text,
}

abbrev header_lines : List Bytes
header_lines = codes "Host: here" ∷ codes "Content-Length: 2" ∷ []

abbrev pub sample : Bytes
sample =
    request_text (request_line (codes "POST") (codes "/chat") (codes "HTTP/1.1")) header_lines
      (codes "abc")

abbrev sample_request : HttpRequest
sample_request = record {
  method = codes "POST";
  path = codes "/chat";
  version = codes "HTTP/1.1";
  headers = (codes "content-length", codes "2") ∷ (codes "host", codes "here") ∷ [];
  body = codes "ab";
}

parses_sample : parse_http_request sample ≡ some sample_request
unfolding parse_http_request same_bytes before_bytes
parses_sample = refl

refuses_bare_line : parse_http_request (codes "GET /") ≡ none
unfolding parse_http_request
refuses_bare_line = refl

reads_field :
    extract_json_string_field (codes "{\"username\": \"bob\"}") (codes "username")
    ≡ some (codes "bob")
unfolding extract_json_string_field read_string same_bytes
reads_field = refl

parse_http_request-request_text_example :
    parse_http_request sample
    ≡ some (record {
      method = codes "POST";
      path = codes "/chat";
      version = codes "HTTP/1.1";
      headers = add_headers header_lines [];
      body = cut_body (add_headers header_lines []) (codes "abc");
    })
parse_http_request-request_text_example =
    parse_http_request-request_text (codes "POST") (codes "/chat") (codes "HTTP/1.1") header_lines
      (codes "abc") (refl, (refl, (refl, (refl, tt)))) (refl, (refl, (refl, (refl, (refl, tt)))))
      (refl, (refl, (refl, (refl, (refl, (refl, (refl, (refl, tt)))))))) (omega arith)

sample_line_end : find crlf sample ≡ some 19
unfolding find
sample_line_end = refl

sample_words : line_words (take 19 sample) ≡ some (codes "POST", codes "/chat", codes "HTTP/1.1")
unfolding line_words read_word
sample_words = refl

sample_blank : find (crlf ++ crlf) sample ≡ some 50
unfolding find
sample_blank = refl

parse_complete_example :
    (headers : List (Bytes × Bytes)) × (parse_http_request sample
      ≡ some (record {
        method = codes "POST";
        path = codes "/chat";
        version = codes "HTTP/1.1";
        headers = headers;
        body = cut_body headers (drop 54 sample);
      }))
parse_complete_example = parse_complete sample sample_line_end sample_words sample_blank

parse_http_request-IsRequestText_example : IsRequestText sample sample_request
parse_http_request-IsRequestText_example =
    parse_http_request-IsRequestText sample {request = sample_request} parses_sample

abbrev odd_text : Bytes
odd_text = 10 ∷ quote ∷ codes "a"

read_string-json_escape_example :
    read_string (json_escape odd_text ++ quote ∷ codes "}") [] ≡ some odd_text
read_string-json_escape_example = read_string-json_escape odd_text (codes "}") []

json_escape-NoControl_example : All NoControl (json_escape odd_text)
json_escape-NoControl_example = json_escape-NoControl odd_text
