-- ===== src/HttpCodec/Fields.antt =====
-- `extractJsonStringField` on a text whose quotes cut it into segments. The field is looked for in
-- every segment, those of values included.
use cpp_ai_service.Base.{
  ℕ, suc, ◌+◌, ◌≡◌, ◌≢◌, refl, ap, sym, false, Option, none, some, [], ◌∷◌, ◌++◌, arith, Bytes,
  List, starts_with, find, length, drop, ◌∙◌, All, append_assoc, same_bytes, if◌then◌else◌,
  drop-append_length, Bool-cases, Option-cases, ◌>>=◌, inl, inr, same_bytes_iff,
}
use cpp_ai_service.Base.Finding.{find_past, find_here, find_from-some, find_from-none, drop-drop}
use cpp_ai_service.HttpCodec.Strings.{quote, skip_spaces, json_escape, json_string}
use cpp_ai_service.HttpCodec.Json.{quoted, read_string, read_quoted, extract_json_string_field}
use cpp_ai_service.HttpCodec.Escape.{read_string-json_escape}

abbrev pub NoQuote : Bytes → Type 0
NoQuote = All (λ c. c ≢ quote)

-- The segments, each behind a quote.
abbrev pub spell : List Bytes → Bytes
spell [] = []
spell (s ∷ segments) = quote ∷ (s ++ spell segments)

-- What stands behind the first segment that is the field, unless it is the last one.
abbrev pub behind : Bytes → List Bytes → Option Bytes
behind field [] = none
behind field (s ∷ []) = none
behind field (s ∷ t ∷ segments) =
    if same_bytes field s then some (t ++ spell segments) else behind field (t ∷ segments)

starts_with-spell :
    (field s rest : Bytes)
    → NoQuote field
    → NoQuote s
    → starts_with (field ++ quote ∷ []) (s ++ quote ∷ rest) ≡ same_bytes field s
unfolding starts_with same_bytes
starts_with-spell [] [] rest hf hs = refl
starts_with-spell [] (c ∷ s) rest hf hs = ground arith
starts_with-spell (x ∷ field) [] rest hf hs = ground arith
starts_with-spell (x ∷ field) (c ∷ s) rest hf hs =
    ground (arith, starts_with-spell field s rest hf.1 hs.1)

find_behind_quote :
    (field s : Bytes) {i : ℕ}
    → starts_with (quoted field) (quote ∷ s) ≡ false
    → find (quoted field) s ≡ some i
    → find (quoted field) (quote ∷ s) ≡ some (suc i)
unfolding find
find_behind_quote field s differs found = ground arith

-- Where a segment is the field, the search finds the first such.
find-behind :
    (field : Bytes) (segments : List Bytes) {rest : Bytes}
    → NoQuote field
    → All NoQuote segments
    → behind field segments ≡ some rest
    → (i : ℕ) × (find (quoted field) (spell segments) ≡ some i)
      × (drop (i + length (quoted field)) (spell segments) ≡ rest)
find-behind field [] hf hs e = absurd (ground arith)
find-behind field (s ∷ []) hf hs e = absurd (ground arith)
find-behind field (s ∷ t ∷ segments) {rest} hf hs e =
    let later = t ++ spell segments in
    let test : starts_with (quoted field) (quote ∷ (s ++ quote ∷ later)) ≡ same_bytes field s =
      unfold starts_with in starts_with-spell field s later hf hs.0 in
    elim (Bool-cases (same_bytes field s)) [
      | inl same ↦
          let is_s = (same_bytes_iff field s).0 same in
          let size : 0 + length (quoted field) ≡ length (quoted field) = omega arith in
          let dropped : drop (length (quoted field)) (quoted field ++ later) ≡ later =
            drop-append_length (quoted field) later in
          let text : quoted field ++ later ≡ quote ∷ (s ++ quote ∷ later) =
            ap (◌∷◌ quote) (
              append_assoc field (quote ∷ []) later
              ∙ ap (λ (x : Bytes). x ++ quote ∷ later) is_s) in
          (
            0,
            find_here (quoted field) (quote ∷ (s ++ quote ∷ later)) (test ∙ same),
            ap (λ (k : ℕ). drop k (quote ∷ (s ++ quote ∷ later))) size
                ∙ ap (λ (x : Bytes). drop (length (quoted field)) x) (sym text)
                ∙ dropped
                ∙ ground arith,
          )
      | inr differs ↦
          let (i, found, at) = find-behind field (t ∷ segments) hf hs.1 (ground arith) in
          let past = find_past quote (field ++ quote ∷ []) s (quote ∷ later) hs.0 found in
          let k : suc (length s + i) + length (quoted field)
              ≡ suc (length s) + (i + length (quoted field)) =
            omega arith in
          (
            suc (length s + i),
            find_behind_quote field (s ++ quote ∷ later) (test ∙ differs) past,
            ap (λ (k : ℕ). drop k (quote ∷ (s ++ quote ∷ later))) k
                ∙ sym (
                    drop-drop (i + length (quoted field)) (suc (length s))
                      (quote ∷ (s ++ quote ∷ later)))
                ∙ ap (drop (i + length (quoted field)))
                    (drop-append_length (quote ∷ s) (quote ∷ later))
                ∙ at,
          )
    ]

-- The value behind a field: the string behind the next colon.
unfoldable pub value_behind : Bytes → Option Bytes
value_behind rest = do
  colon ← find (b':' ∷ []) rest
  read_quoted (skip_spaces (drop (colon + 1) rest))

extract-steps :
    (json field : Bytes) {i : ℕ}
    → find (quoted field) json ≡ some i
    → extract_json_string_field json field ≡ value_behind (drop (i + length (quoted field)) json)
unfolding extract_json_string_field value_behind
extract-steps json field {i} found = elim (Option-cases (find (b':' ∷ []) (drop from json))) [
  | inl e ↦ rw (found, find_from-none (b':' ∷ []) json from e, e)
  | inr (c, e) ↦
      let k : from + c + 1 ≡ from + (c + 1) = omega arith in
      rw (found, find_from-some (b':' ∷ []) json from e, e, drop-drop (c + 1) from json)
        (ap (λ (k : ℕ). read_quoted (skip_spaces (drop k json))) k)
]
  where
    from : ℕ
    from = i + length (quoted field)

-- The extraction reads the value behind the first segment that is the field.
pub extract-behind :
    (first field : Bytes) (segments : List Bytes) {rest : Bytes}
    → NoQuote first
    → NoQuote field
    → All NoQuote segments
    → behind field segments ≡ some rest
    → extract_json_string_field (first ++ spell segments) field ≡ value_behind rest
extract-behind first field segments {rest} h hf hs e =
    let (i, found, at) = find-behind field segments hf hs e in
    let past = find_past quote (field ++ quote ∷ []) first (spell segments) h found in
    let k : length first + i + length (quoted field) ≡ length first + (i + length (quoted field)) =
      omega arith in
    extract-steps (first ++ spell segments) field past
    ∙ ap value_behind (
        ap (λ (k : ℕ). drop k (first ++ spell segments)) k
        ∙ sym (drop-drop (i + length (quoted field)) (length first) (first ++ spell segments))
        ∙ ap (drop (i + length (quoted field))) (drop-append_length first (spell segments))
        ∙ at)

-- A string as the program writes it right behind a colon is read back, whatever its bytes are.
pub value_behind-json_string :
    (value rest : Bytes) → value_behind (b':' ∷ (json_string value ++ rest)) ≡ some value
unfolding value_behind find read_quoted skip_spaces
value_behind-json_string value rest =
    ap (λ (s : Bytes). read_string s []) (append_assoc (json_escape value) (quote ∷ []) rest)
    ∙ read_string-json_escape value rest []
