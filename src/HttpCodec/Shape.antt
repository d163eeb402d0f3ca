-- ===== src/HttpCodec/Shape.antt =====
-- The shape of every text that `parseHttpRequest` accepts.
use Prim.{tt, Unit}
use cpp_ai_service.Base.{
  ℕ, zero, suc, ◌+◌, ◌≤◌, ◌≡◌, refl, sym, ap, subst, if_lem, true, false, Option, none, some, [],
  ◌∷◌, ◌++◌, arith, Bytes, codes, List, find, length, take, drop, inl, inr, Bool-cases, ◌∙◌, All,
  cut_at, is_empty, is_space, if◌then◌else◌, append-nil, ltb, min,
}
use cpp_ai_service.Base.Finding.{starts_with-find, find-le, starts_with-append}
use cpp_ai_service.Base.Dictionary.{bytes_key, lookup}
use cpp_ai_service.HttpCodec.Strings.{crlf, skip_spaces}
use cpp_ai_service.HttpCodec.Request.{
  HttpRequest, word, past_word, read_word, read_headers, cut_body, strtoul,
}
use cpp_ai_service.HttpCodec.RoundTrip.{IsWordByte, IsWord, header_block, add_headers}
use cpp_ai_service.HttpCodec.Said.{IsSaid, add_headers-IsSaid}
use cpp_ai_service.HttpCodec.Lines.{IsHeaderLine, cut_crlf, find-take, read_headers-HaveRead}

abbrev IsSpaceByte : ℕ → Type 0
IsSpaceByte c = is_space c ≡ true

-- The text is at its end, or at a space.
abbrev IsWordEnd : Bytes → Type 0
IsWordEnd [] = Unit
IsWordEnd (c ∷ s) = IsSpaceByte c

-- The next word of a text, behind some spaces, and what follows it.
pub record IsNextWord (s w rest : Bytes) : Type 0 where
  pub gap : Bytes
  pub spaces : All IsSpaceByte gap
  pub text : s ≡ gap ++ (w ++ rest)
  pub is_word : IsWord w
  pub ends : IsWordEnd rest

split_word : (s : Bytes) → word s ++ past_word s ≡ s
unfolding word past_word
split_word [] = refl
split_word (c ∷ s) = ground (arith, split_word s)

word-All : (s : Bytes) → All IsWordByte (word s)
unfolding word
word-All [] = tt
word-All (c ∷ s) = if_lem (All IsWordByte) (is_space c) (λ _. tt) (λ letter. (letter, word-All s))

past_word-IsWordEnd : (s : Bytes) → IsWordEnd (past_word s)
unfolding past_word
past_word-IsWordEnd [] = tt
past_word-IsWordEnd (c ∷ s) =
    if_lem IsWordEnd (is_space c) (λ space. space) (λ _. past_word-IsWordEnd s)

-- What is left behind the spaces.
skip_spaces_cases :
    (s : Bytes)
    → (gap : Bytes) × All IsSpaceByte gap
      × (s ≡ gap ++ skip_spaces s)
      × (is_empty (skip_spaces s) ≡ false → IsWord (word (skip_spaces s)))
unfolding skip_spaces
skip_spaces_cases [] = ([], tt, refl, λ h. absurd (ground (arith, h)))
skip_spaces_cases (c ∷ s) =
    let (gap, spaces, text, is_word) = skip_spaces_cases s in
    elim (Bool-cases (is_space c)) [
      | inl space ↦ (c ∷ gap, (space, spaces), rw space (ap (◌∷◌ c) text), rw space is_word)
      | inr letter ↦ ([], tt, rw letter refl, rw letter (λ h. first_word c s letter))
    ]
  where
    first_word : (c : ℕ) (s : Bytes) → IsWordByte c → IsWord (word (c ∷ s))
    first_word c s letter = unfold word in rw letter (letter, word-All s)

read_word-IsNextWord :
    (s : Bytes) {w rest : Bytes} → read_word s ≡ some (w, rest) → IsNextWord s w rest
unfolding read_word
read_word-IsNextWord s {w} {rest} h =
    let (gap, spaces, text, is_word) = skip_spaces_cases s in
    let t = skip_spaces s in
    elim (Bool-cases (is_empty t)) [
      | inl e ↦ absurd (ground arith)
      | inr filled ↦
          let first : word t ≡ w = ground arith in
          let second : past_word t ≡ rest = ground arith in
          record {
            gap = gap;
            spaces = spaces;
            text =
                text
                ∙ ap (◌++◌ gap) (
                    sym (split_word t)
                    ∙ ap (◌++◌ (word t)) second
                    ∙ ap (λ (x : Bytes). x ++ rest) first);
            is_word = subst IsWord first (is_word filled);
            ends = subst IsWordEnd second (past_word-IsWordEnd t);
          }
    ]

-- The length of the body, by the announced one and that of what stands behind the blank line.
abbrev body_length : Option Bytes → ℕ → ℕ
body_length none n = n
body_length (some text) n = min (strtoul text) n

length-take : (n : ℕ) (s : Bytes) → length (take n s) ≡ min n (length s)
length-take zero s = omega arith
length-take (suc n) [] = omega arith
length-take (suc n) (c ∷ s) = omega (arith, length-take n s)

cut_body_lem :
    (headers : List (Bytes × Bytes)) (behind : Bytes)
    → (cut : Bytes) × (behind ≡ cut_body headers behind ++ cut)
      × (length (cut_body headers behind)
          ≡ body_length (lookup (codes "content-length") headers) (length behind))
unfolding cut_body
cut_body_lem headers behind = go (lookup (codes "content-length") headers)
  where
    body_of : Option Bytes → Bytes
    body_of announced = elim announced [
      | none ↦ behind
      | some text ↦
          let expected = strtoul text in
          if ltb expected (length behind) then take expected behind else behind
    ]

    go :
        (announced : Option Bytes)
        → (cut : Bytes) × (behind ≡ body_of announced ++ cut)
          × (length (body_of announced) ≡ body_length announced (length behind))
    go none = ([], sym (append-nil behind), refl)
    go (some text) = elim (Bool-cases (ltb (strtoul text) (length behind))) [
      | inl longer ↦
          let size : length (take (strtoul text) behind) ≡ min (strtoul text) (length behind) =
            length-take (strtoul text) behind in
          (
            drop (strtoul text) behind,
            rw longer (sym (cut_at (strtoul text) behind)),
            rw longer size,
          )
      | inr fits ↦
          let size : length behind ≡ min (strtoul text) (length behind) = ground (arith, fits) in
          ([], rw fits (sym (append-nil behind)), rw fits size)
    ]

-- The text is that of the request: a line with the three words, header lines that say the headers, a
-- blank line, and the body, which is all that follows unless less is announced.
pub record IsRequestText (raw : Bytes) (request : HttpRequest) : Type 0 where
  pub line : Bytes
  pub unbroken : find crlf line ≡ none
  pub after_method : Bytes
  pub after_path : Bytes
  pub after_version : Bytes
  pub method_word : IsNextWord line request.method after_method
  pub path_word : IsNextWord after_method request.path after_path
  pub version_word : IsNextWord after_path request.version after_version
  pub lines : List Bytes
  pub are_lines : All IsHeaderLine lines
  pub headers_read : request.headers ≡ add_headers lines []
  pub headers_said : All (IsSaid lines) request.headers
  pub behind : Bytes
  pub cut : Bytes
  pub text : raw ≡ line ++ (crlf ++ (header_block lines ++ (crlf ++ behind)))
  pub body_first : behind ≡ request.body ++ cut
  pub announced :
      length request.body
      ≡ body_length (lookup (codes "content-length") request.headers) (length behind)

pub shape_of_steps :
    (raw : Bytes) {line_end stop : ℕ}
    {method path version after_method after_path after_version : Bytes}
    {headers : List (Bytes × Bytes)}
    → find crlf raw ≡ some line_end
    → read_word (take line_end raw) ≡ some (method, after_method)
    → read_word after_method ≡ some (path, after_path)
    → read_word after_path ≡ some (version, after_version)
    → find (crlf ++ crlf) raw ≡ some stop
    → read_headers (length raw) raw (line_end + 2) stop [] ≡ some headers
    → IsRequestText raw (record {
      method = method;
      path = path;
      version = version;
      headers = headers;
      body = cut_body headers (drop (stop + 4) raw);
    })
shape_of_steps raw {line_end} {stop} {after_method = after_method} {after_path = after_path}
      {after_version = after_version} at_line first second third blank ran =
    let here = starts_with-find crlf raw at_line in
    let blank_end =
      starts_with-append crlf crlf (drop stop raw) (starts_with-find (crlf ++ crlf) raw blank) in
    let (i, found, le) = find-le crlf raw stop blank_end in
    let same : some i ≡ some line_end = sym found ∙ at_line in
    let low : line_end ≤ stop = ground (arith, same, le) in
    let read = read_headers-HaveRead raw blank (length raw) line_end [] here low ran in
    let (cut, body_first, announced) = cut_body_lem _ (drop (stop + 4) raw) in
    record {
      line = take line_end raw;
      unbroken = find-take raw at_line;
      after_method = after_method;
      after_path = after_path;
      after_version = after_version;
      method_word = read_word-IsNextWord (take line_end raw) first;
      path_word = read_word-IsNextWord after_method second;
      version_word = read_word-IsNextWord after_path third;
      lines = read.lines;
      are_lines = read.are_lines;
      headers_read = read.read;
      headers_said =
          subst (All (IsSaid read.lines)) (sym read.read) (add_headers-IsSaid read.lines);
      behind = drop (stop + 4) raw;
      cut = cut;
      text =
          cut_crlf raw line_end here
          ∙ ap (λ (t : Bytes). take line_end raw ++ (crlf ++ t)) read.text;
      body_first = body_first;
      announced = announced;
    }
