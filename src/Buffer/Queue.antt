-- ===== src/Buffer/Queue.antt =====
-- The buffer is a queue of bytes: what is read out is what was put in, in its order.
use cpp_ai_service.Base.{
  ℕ, zero, suc, ◌+◌, ◌-◌, ◌≤◌, ◌<◌, ◌≡◌, ◌∙◌, refl, sym, ap, [], ◌∷◌, Bytes, ◌++◌, append_assoc,
  ltb, length, length-append, cut_at, take, drop, replicate, take-append_length, drop-append_length,
  arith, Bool-cases, inl, inr,
}
use cpp_ai_service.Base.Finding.{drop-drop}
use cpp_ai_service.Buffer.Storage.{
  Buffer, cheap_prepend, readable_bytes, writable_bytes, peek, resize, copy_to, make_space,
  write_at_end,
}

-- The buffer holds these bytes: they stand from the reader index up to the writer index.
pub record Holds (b : Buffer) (content : Bytes) : Type 0 where
  pub front : Bytes
  pub back : Bytes
  pub parts : b.bytes ≡ front ++ (content ++ back)
  pub at_reader : length front ≡ b.reader_index
  pub at_writer : length front + length content ≡ b.writer_index
  pub prepend : cheap_prepend ≤ length front

take_first : (xs ys : Bytes) (n : ℕ) → length xs ≡ n → take n (xs ++ ys) ≡ xs
take_first xs ys n e = ap (λ (k : ℕ). take k (xs ++ ys)) (sym e) ∙ take-append_length xs ys

drop_first : (xs ys : Bytes) (n : ℕ) → length xs ≡ n → drop n (xs ++ ys) ≡ ys
drop_first xs ys n e = ap (λ (k : ℕ). drop k (xs ++ ys)) (sym e) ∙ drop-append_length xs ys

pub take_size : (n : ℕ) (xs : Bytes) → n ≤ length xs → length (take n xs) ≡ n
take_size zero xs h = refl
take_size (suc n) [] h = omega arith
take_size (suc n) (c ∷ xs) h = omega (arith, take_size n xs)

take_none : (n : ℕ) (xs : Bytes) → xs ≡ [] → take n [] ≡ xs
take_none zero xs e = sym e
take_none (suc n) xs e = sym e

pub take_whole : (n : ℕ) (xs : Bytes) → length xs ≤ n → take n xs ≡ xs
take_whole n [] h = take_none n [] refl
take_whole zero (c ∷ xs) h = absurd (omega arith)
take_whole (suc n) (c ∷ xs) h = rw (take_whole n xs (omega arith)) refl

abbrev pub zeros : ℕ → Bytes
zeros n = replicate n 0

zeros_size : (n : ℕ) → length (zeros n) ≡ n
zeros_size zero = refl
zeros_size (suc n) = ap suc (zeros_size n)

module _ (b : Buffer) (content : Bytes) (h : Holds b content) where
  pub size : length b.bytes ≡ b.writer_index + length h.back
  size =
      ap length h.parts
      ∙ omega (
        arith,
        length-append h.front (content ++ h.back),
        length-append content h.back,
        h.at_writer,
      )

  pub peeked : peek b ≡ content ++ h.back
  peeked =
      ap (drop b.reader_index) h.parts
      ∙ drop_first h.front (content ++ h.back) b.reader_index h.at_reader

  pub readable : length content ≡ readable_bytes b
  readable = omega (arith, h.at_reader, h.at_writer)

  -- The input goes behind the content.
  pub write_at_end-Holds : (input : Bytes) → Holds (write_at_end b input) (content ++ input)
  unfolding write_at_end copy_to
  write_at_end-Holds input = record {
    front = h.front;
    back = drop (length input) h.back;
    parts =
        ap (λ (x : Bytes). x ++ (input ++ drop (b.writer_index + length input) b.bytes)) taken
        ∙ ap (λ (x : Bytes). (h.front ++ content) ++ (input ++ x)) dropped
        ∙ simp (append_assoc);
    at_reader = h.at_reader;
    at_writer = omega (arith, length-append content input, h.at_writer);
    prepend = h.prepend;
  }
    where
      whole : b.bytes ≡ (h.front ++ content) ++ h.back
      whole = h.parts ∙ sym (append_assoc h.front content h.back)

      long : length (h.front ++ content) ≡ b.writer_index
      long = length-append h.front content ∙ h.at_writer

      taken : take b.writer_index b.bytes ≡ h.front ++ content
      taken =
          ap (take b.writer_index) whole
          ∙ take_first (h.front ++ content) h.back b.writer_index long

      dropped : drop (b.writer_index + length input) b.bytes ≡ drop (length input) h.back
      dropped =
          sym (drop-drop (length input) b.writer_index b.bytes)
          ∙ ap (drop (length input)) (
              ap (drop b.writer_index) whole
              ∙ drop_first (h.front ++ content) h.back b.writer_index long)

  grown_bytes :
      (len : ℕ)
      → writable_bytes b < len
      → resize b.bytes (b.writer_index + len)
        ≡ b.bytes ++ zeros (b.writer_index + len - length b.bytes)
  unfolding resize
  grown_bytes len few =
      ap (λ (x : Bytes). x ++ zeros (b.writer_index + len - length b.bytes))
        (take_whole (b.writer_index + len) b.bytes (omega (arith, size)))

  kept_bytes : take (readable_bytes b) (peek b) ≡ content
  kept_bytes =
      ap (take (readable_bytes b)) peeked ∙ take_first content h.back (readable_bytes b) readable

  after_size : (n : ℕ) → n ≤ length b.bytes → n + length (drop n b.bytes) ≡ length b.bytes
  after_size n le =
      let e = ap length (cut_at n b.bytes) in
      omega (arith, e, length-append (take n b.bytes) (drop n b.bytes), take_size n b.bytes le)

  moved-Holds :
      (len : ℕ)
      → len + cheap_prepend ≤ writable_bytes b + b.reader_index
      → Holds
          (record {
            bytes = copy_to b.bytes cheap_prepend (take (readable_bytes b) (peek b));
            reader_index = cheap_prepend;
            writer_index = cheap_prepend + readable_bytes b;
          })
          content
        × (len
            ≤ length (copy_to b.bytes cheap_prepend (take (readable_bytes b) (peek b)))
              - (cheap_prepend + readable_bytes b))
  unfolding copy_to
  moved-Holds len enough = (
    record {
      front = take cheap_prepend b.bytes;
      back = drop (cheap_prepend + length content) b.bytes;
      parts = spelled;
      at_reader = first_size;
      at_writer = omega (arith, first_size, readable);
      prepend = omega (arith, first_size);
    },
    (let e = ap length spelled in
        omega (
          arith,
          e,
          first_size,
          readable,
          size,
          h.at_reader,
          h.at_writer,
          h.prepend,
          length-append (take cheap_prepend b.bytes)
              (content ++ drop (cheap_prepend + length content) b.bytes),
          length-append content (drop (cheap_prepend + length content) b.bytes),
          after_size (cheap_prepend + length content) (omega (arith, size, h.at_writer, h.prepend)),
        )),
  )
    where
      spelled :
          copy_to b.bytes cheap_prepend (take (readable_bytes b) (peek b))
          ≡ take cheap_prepend b.bytes ++ (content ++ drop (cheap_prepend + length content) b.bytes)
      spelled =
          ap
            (λ (x : Bytes).
              take cheap_prepend b.bytes ++ (x ++ drop (cheap_prepend + length x) b.bytes))
            kept_bytes

      first_size : length (take cheap_prepend b.bytes) ≡ cheap_prepend
      first_size = take_size cheap_prepend b.bytes (omega (arith, size, h.at_writer, h.prepend))

  -- Space for more bytes is made at the end, or by moving the content to the front.
  pub make_space-Holds :
      (len : ℕ)
      → writable_bytes b < len
      → Holds (make_space b len) content × (len ≤ writable_bytes (make_space b len))
  unfolding make_space
  make_space-Holds len few =
      elim (Bool-cases (ltb (writable_bytes b + b.reader_index) (len + cheap_prepend))) [
        | inl full ↦
            let fill = zeros (b.writer_index + len - length b.bytes) in
            rw (full, make_space)
              (
                record {
                  front = h.front;
                  back = h.back ++ fill;
                  parts =
                      grown_bytes len few
                      ∙ ap (λ (x : Bytes). x ++ fill) h.parts
                      ∙ simp (append_assoc);
                  at_reader = h.at_reader;
                  at_writer = h.at_writer;
                  prepend = h.prepend;
                },
                (let e = ap length (grown_bytes len few) in
                    omega (
                      arith,
                      e,
                      size,
                      length-append b.bytes fill,
                      zeros_size (b.writer_index + len - length b.bytes),
                    )),
              )
        | inr space ↦ rw (space, make_space) (moved-Holds len (ground (arith, space)))
      ]
