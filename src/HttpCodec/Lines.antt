-- ===== src/HttpCodec/Lines.antt =====
-- The loop of `parseHttpRequest` over the header lines, on any text.
use Prim.{tt}
use cpp_ai_service.Base.{
  ℕ, zero, suc, ◌+◌, ◌-◌, ◌≤◌, ◌≡◌, refl, sym, ap, subst, true, false, none, some, [], ◌∷◌, ◌++◌,
  arith, Bytes, List, ◌<◌, ◌==◌, starts_with, find, find_from, length, take, drop, inl, inr,
  Bool-cases, ltb, Option-cases, ◌∙◌, All, cut_at, is_empty, append_assoc,
}
use cpp_ai_service.Base.Finding.{starts_with-find, find-le, drop-drop, starts_with-append}
use cpp_ai_service.HttpCodec.Strings.{crlf}
use cpp_ai_service.HttpCodec.Request.{read_headers, add_header}
use cpp_ai_service.HttpCodec.RoundTrip.{header_block, add_headers}

starts_with-take :
    (needle s : Bytes) (n : ℕ) → starts_with needle (take n s) ≡ true → starts_with needle s ≡ true
unfolding starts_with
starts_with-take [] s n h = refl
starts_with-take (x ∷ needle) s zero h = cc
starts_with-take (x ∷ needle) [] (suc n) h = cc
starts_with-take (x ∷ needle) (c ∷ s) (suc n) h = ground (arith, starts_with-take needle s n)

-- There is no line end in the text before the first one.
pub find-take : (s : Bytes) {i : ℕ} → find crlf s ≡ some i → find crlf (take i s) ≡ none
unfolding find starts_with
find-take [] h = absurd (ground arith)
find-take (c ∷ s) {i = zero} h = refl
find-take (c ∷ s) {i = suc i} h =
    ground (arith, find-take s {i = i}, starts_with-take crlf (c ∷ s) (suc i))

-- The text behind an occurrence.
pub cut_needle :
    (needle s : Bytes) → starts_with needle s ≡ true → s ≡ needle ++ drop (length needle) s
unfolding starts_with
cut_needle [] s h = refl
cut_needle (x ∷ needle) [] h = cc
cut_needle (x ∷ needle) (c ∷ s) h = ground (arith, cut_needle needle s)

pub cut_crlf :
    (s : Bytes) (i : ℕ)
    → starts_with crlf (drop i s) ≡ true
    → s ≡ take i s ++ (crlf ++ drop (i + 2) s)
cut_crlf s i h =
    sym (cut_at i s)
    ∙ ap (◌++◌ (take i s)) (cut_needle crlf (drop i s) h ∙ ap (◌++◌ crlf) (drop-drop 2 i s))

not_overlapping : (s : Bytes) → starts_with crlf s ≡ true → starts_with crlf (drop 1 s) ≡ true → ⊥
unfolding starts_with
not_overlapping [] h h' = cc
not_overlapping (c ∷ []) h h' = ground (arith, h)
not_overlapping (c ∷ d ∷ s) h h' = ground (arith, h, h')

two_ends :
    (s : Bytes)
    → starts_with crlf s ≡ true
    → starts_with crlf (drop 2 s) ≡ true
    → starts_with (crlf ++ crlf) s ≡ true
unfolding starts_with
two_ends [] h h' = cc
two_ends (c ∷ []) h h' = ground (arith, h)
two_ends (c ∷ d ∷ s) h h' = ground (arith, h, h')

module _ (raw : Bytes) {stop : ℕ} (blank : find (crlf ++ crlf) raw ≡ some stop) where
  blank_here : starts_with (crlf ++ crlf) (drop stop raw) ≡ true
  blank_here = starts_with-find (crlf ++ crlf) raw blank

  -- No two line ends stand together before the blank line.
  pub blank_first :
      (before : ℕ)
      → starts_with crlf (drop before raw) ≡ true
      → starts_with crlf (drop (before + 2) raw) ≡ true
      → stop ≤ before
  blank_first before h h' =
      let again = two_ends (drop before raw) h (rw (drop-drop 2 before raw) h') in
      let (i, found, le) = find-le (crlf ++ crlf) raw before again in
      let same : some i ≡ some stop = sym found ∙ blank in ground (arith, same, le)

  pub blank_is_end :
      (before : ℕ)
      → starts_with crlf (drop before raw) ≡ true
      → before ≤ stop
      → stop ≤ before + 2
      → before ≡ stop
  blank_is_end before h low high =
      let here : starts_with crlf (drop stop raw) ≡ true =
        starts_with-append crlf crlf (drop stop raw) blank_here in
      elim (Bool-cases (before == stop)) [
        | inl same ↦ ground (arith, same)
        | inr other ↦ elim (Bool-cases (before + 1 == stop)) [
          | inl one ↦
              let e : stop ≡ before + 1 = ground (arith, one) in
              absurd (
                not_overlapping (drop before raw) h (
                  rw (drop-drop 1 before raw)
                    (ap (λ (k : ℕ). starts_with crlf (drop k raw)) (sym e) ∙ here)))
          | inr two ↦
              let e : stop ≡ before + 2 = ground (arith, other, two, low, high) in
              let first =
                blank_first before h
                  (ap (λ (k : ℕ). starts_with crlf (drop k raw)) (sym e) ∙ here) in
              absurd (omega (arith, first, e))
        ]
      ]

-- A header line: not empty, and with no line end in it.
abbrev pub IsHeaderLine : Bytes → Type 0
IsHeaderLine line = (is_empty line ≡ false) × (find crlf line ≡ none)

filled_take :
    (s : Bytes) (i : ℕ) → starts_with crlf (drop i s) ≡ true → 0 < i → is_empty (take i s) ≡ false
unfolding starts_with
filled_take s zero h lt = absurd (omega arith)
filled_take [] (suc i) h lt = cc
filled_take (c ∷ s) (suc i) h lt = refl

find_from-found :
    (raw : Bytes) (start : ℕ) {line_end : ℕ}
    → find_from crlf raw start ≡ some line_end
    → (i : ℕ) × (find crlf (drop start raw) ≡ some i) × (line_end ≡ start + i)
unfolding find_from
find_from-found raw start h = elim (Option-cases (find crlf (drop start raw))) [
  | inl e ↦ absurd (ground arith)
  | inr (i, e) ↦ (i, e, ground arith)
]

-- What the loop has read: header lines up to the blank line, and their headers.
pub record HaveRead (raw : Bytes) (start stop : ℕ) (headers all : List (Bytes × Bytes))
    : Type 0 where
  pub lines : List Bytes
  pub are_lines : All IsHeaderLine lines
  pub text : drop start raw ≡ header_block lines ++ (crlf ++ drop (stop + 4) raw)
  pub read : all ≡ add_headers lines headers

module _ (raw : Bytes) {stop : ℕ} (blank : find (crlf ++ crlf) raw ≡ some stop) where
  HaveRead-none :
      (before : ℕ) (headers : List (Bytes × Bytes))
      → starts_with crlf (drop before raw) ≡ true
      → before ≤ stop
      → stop ≤ before + 2
      → HaveRead raw (before + 2) stop headers headers
  HaveRead-none before headers h low high =
      let same = blank_is_end raw blank before h low high in
      let two = cut_needle (crlf ++ crlf) (drop stop raw) (blank_here raw blank) in
      record {
        lines = [];
        are_lines = tt;
        text =
            ap (λ (k : ℕ). drop (k + 2) raw) same
            ∙ sym (drop-drop 2 stop raw)
            ∙ ap (drop 2) two
            ∙ ap (◌++◌ crlf) (drop-drop 4 stop raw);
        read = refl;
      }

  -- One more line in front of what the rounds that follow read.
  HaveRead-line :
      (before line_end i : ℕ) (headers all : List (Bytes × Bytes))
      → starts_with crlf (drop before raw) ≡ true
      → before + 2 < stop
      → find crlf (drop (before + 2) raw) ≡ some i
      → line_end ≡ before + 2 + i
      → HaveRead raw
          (line_end + 2)
          stop
          (add_header (take (line_end - (before + 2)) (drop (before + 2) raw)) headers)
          all
      → HaveRead raw (before + 2) stop headers all
  HaveRead-line before line_end i headers all h more found at rest =
      let s = drop (before + 2) raw in
      let size : line_end - (before + 2) ≡ i = omega (arith, at) in
      let here = starts_with-find crlf s found in
      let past : drop (i + 2) s ≡ drop (line_end + 2) raw =
        let k : before + 2 + (i + 2) ≡ line_end + 2 = omega (arith, at) in
        drop-drop (i + 2) (before + 2) raw ∙ ap (λ (n : ℕ). drop n raw) k in
      let positive : 0 < i = elim (Bool-cases (i == 0)) [
        | inl zero_size ↦
            let e : i ≡ 0 = ground (arith, zero_size) in
            let again : starts_with crlf s ≡ true =
              ap (λ (k : ℕ). starts_with crlf (drop k s)) (sym e) ∙ here in
            absurd (omega (arith, blank_first raw blank before h again, more))
        | inr some_size ↦ ground (arith, some_size)
      ] in
      record {
        lines = take i s ∷ rest.lines;
        are_lines = ((filled_take s i here positive, find-take s found), rest.are_lines);
        text =
            cut_crlf s i here
            ∙ ap (λ (t : Bytes). take i s ++ (crlf ++ t)) (past ∙ rest.text)
            ∙ sym (
                append_assoc (take i s) (crlf ++ header_block rest.lines)
                  (crlf ++ drop (stop + 4) raw));
        read =
            rest.read ∙ ap (λ (n : ℕ). add_headers rest.lines (add_header (take n s) headers)) size;
      }

  pub read_headers-HaveRead :
      (rounds before : ℕ) (headers : List (Bytes × Bytes)) {all : List (Bytes × Bytes)}
      → starts_with crlf (drop before raw) ≡ true
      → before ≤ stop
      → read_headers rounds raw (before + 2) stop headers ≡ some all
      → HaveRead raw (before + 2) stop headers all
  unfolding read_headers
  read_headers-HaveRead zero before headers {all} h low ran =
      elim (Bool-cases (ltb (before + 2) stop)) [
        | inl more ↦ absurd (ground arith)
        | inr over ↦
            let e : headers ≡ all = ground arith in
            subst (HaveRead raw (before + 2) stop headers) e
              (HaveRead-none before headers h low (ground (arith, over)))
      ]
  read_headers-HaveRead (suc rounds) before headers {all} h low ran =
      elim (Bool-cases (ltb (before + 2) stop)) [
        | inr over ↦
            let e : headers ≡ all = ground arith in
            subst (HaveRead raw (before + 2) stop headers) e
              (HaveRead-none before headers h low (ground (arith, over)))
        | inl more ↦ elim (Option-cases (find_from crlf raw (before + 2))) [
          | inl e ↦ absurd (ground arith)
          | inr (line_end, e) ↦ elim (Bool-cases (ltb stop line_end)) [
            | inl late ↦ absurd (ground arith)
            | inr within ↦
                let (i, found, at) = find_from-found raw (before + 2) e in
                let here : starts_with crlf (drop line_end raw) ≡ true =
                  ap (λ (n : ℕ). starts_with crlf (drop n raw)) at
                  ∙ ap (starts_with crlf) (sym (drop-drop i (before + 2) raw))
                  ∙ starts_with-find crlf (drop (before + 2) raw) found in
                HaveRead-line before line_end i headers all h (ground (arith, more)) found at (
                  read_headers-HaveRead rounds line_end _ here (ground (arith, within))
                    (ground arith))
          ]
        ]
      ]
