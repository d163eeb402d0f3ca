-- ===== src/HttpCodec/Said.antt =====
-- The headers of a request are those that its header lines say.
use Prim.{tt}
use cpp_ai_service.Base.{
  ℕ, zero, suc, ◌+◌, ◌≡◌, refl, sym, ap, none, some, [], ◌∷◌, ◌++◌, arith, Bytes, List, starts_with,
  find, take, drop, inl, inr, Option, ◌∙◌, All, cut_at, ◌⊎◌, if_lem, same_bytes, before_bytes,
}
use cpp_ai_service.Base.Finding.{starts_with-find, drop-drop}
use cpp_ai_service.Base.Dictionary.{bytes_key, insert}
use cpp_ai_service.HttpCodec.Strings.{to_lower, trim}
use cpp_ai_service.HttpCodec.Request.{add_header}
use cpp_ai_service.HttpCodec.RoundTrip.{add_headers}
use cpp_ai_service.HttpCodec.Lines.{cut_needle}

abbrev colon_text : Bytes
colon_text = b':' ∷ []

-- The line is a name, the first colon, and a text: the header is the trimmed name in small letters, with
-- the trimmed text.
pub record Says (line : Bytes) (header : Bytes × Bytes) : Type 0 where
  pub name : Bytes
  pub behind : Bytes
  pub text : line ≡ name ++ b':' ∷ behind
  pub first_colon : find colon_text name ≡ none
  pub key_is : header.0 ≡ to_lower (trim name)
  pub value_is : header.1 ≡ trim behind

-- Some line says the header.
abbrev pub IsSaid : List Bytes → Bytes × Bytes → Type 0
IsSaid [] header = ⊥
IsSaid (line ∷ lines) header = Says line header ⊎ IsSaid lines header

find_colon-take :
    (s : Bytes) {i : ℕ} → find colon_text s ≡ some i → find colon_text (take i s) ≡ none
unfolding find starts_with
find_colon-take [] h = absurd (ground arith)
find_colon-take (c ∷ s) {i = zero} h = refl
find_colon-take (c ∷ s) {i = suc i} h = ground (arith, find_colon-take s {i = i})

All-insert :
    (P : Bytes × Bytes → Type 0) (key value : Bytes) (headers : List (Bytes × Bytes))
    → All P headers
    → P (key, value)
    → All P (insert key value headers)
unfolding insert
All-insert P key value [] h p = (p, tt)
All-insert P key value ((k, v) ∷ headers) h p =
    if_lem (All P) (same_bytes k key) (λ _. (p, h.1))
      (λ _.
        if_lem (All P) (before_bytes key k) (λ _. (p, h))
          (λ _. (h.0, All-insert P key value headers h.1 p)))

line-Says :
    (line : Bytes) {colon : ℕ}
    → find colon_text line ≡ some colon
    → Says line (to_lower (trim (take colon line)), trim (drop (colon + 1) line))
line-Says line {colon} h = record {
  name = take colon line;
  behind = drop (colon + 1) line;
  text =
      sym (cut_at colon line)
      ∙ ap (◌++◌ (take colon line)) (
          cut_needle colon_text (drop colon line) (starts_with-find colon_text line h)
          ∙ ap (◌∷◌ b':') (drop-drop 1 colon line));
  first_colon = find_colon-take line h;
  key_is = refl;
  value_is = refl;
}

add_headers-All :
    (P : Bytes × Bytes → Type 0) (lines : List Bytes) (headers : List (Bytes × Bytes))
    → All P headers
    → ((header : Bytes × Bytes) → IsSaid lines header → P header)
    → All P (add_headers lines headers)
unfolding add_header
add_headers-All P [] headers h said = h
add_headers-All P (line ∷ lines) headers h said =
    add_headers-All P lines (add_header line headers) (go (find colon_text line) refl)
      (λ header later. said header (inr later))
  where
    added : Option ℕ → List (Bytes × Bytes)
    added found = elim found [
      | none ↦ headers
      | some colon ↦
          insert (to_lower (trim (take colon line))) (trim (drop (colon + 1) line)) headers
    ]

    go : (found : Option ℕ) → find colon_text line ≡ found → All P (added found)
    go none e = h
    go (some colon) e = All-insert P _ _ headers h (said _ (inl (line-Says line e)))

pub add_headers-IsSaid : (lines : List Bytes) → All (IsSaid lines) (add_headers lines [])
add_headers-IsSaid lines = add_headers-All (IsSaid lines) lines [] tt (λ header said. said)
