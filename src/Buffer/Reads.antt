-- ===== src/Buffer/Reads.antt =====
-- `append`, `readFd` and the `retrieve` functions on the queue of bytes.
use cpp_ai_service.Base.{
  ℕ, zero, suc, ◌+◌, ◌≤◌, ◌≡◌, ◌∙◌, refl, sym, ap, subst, [], ◌∷◌, Bytes, ◌++◌, append_assoc,
  cut_at, leb, ltb, length, length-append, take, drop, replicate, arith, Bool-cases, inl, inr,
}
use cpp_ai_service.Buffer.Storage.{
  Buffer, new_buffer, cheap_prepend, readable_bytes, writable_bytes, retrieve_all, retrieve,
  retrieve_as_string, retrieve_all_as_string, ensure_writable_bytes, write_at_end, append, read_fd,
}
use cpp_ai_service.Buffer.Queue.{
  Holds, write_at_end-Holds, make_space-Holds, take_size, take_whole, zeros, size, peeked, readable,
}

take_within : (n : ℕ) (xs ys : Bytes) → n ≤ length xs → take n (xs ++ ys) ≡ take n xs
take_within zero xs ys h = refl
take_within (suc n) [] ys h = absurd (omega arith)
take_within (suc n) (c ∷ xs) ys h = ap (◌∷◌ c) (take_within n xs ys (omega arith))

drop_none : (n : ℕ) (xs : Bytes) → xs ≡ [] → drop n [] ≡ xs
drop_none zero xs e = sym e
drop_none (suc n) xs e = sym e

drop_whole : (n : ℕ) (xs : Bytes) → length xs ≤ n → drop n xs ≡ []
drop_whole n [] h = drop_none n [] refl
drop_whole zero (c ∷ xs) h = absurd (omega arith)
drop_whole (suc n) (c ∷ xs) h = drop_whole n xs (omega arith)

zeros_add : (m n : ℕ) → replicate (m + n) 0 ≡ zeros m ++ zeros n
zeros_add zero n = let k : zero + n ≡ n = omega arith in ap zeros k
zeros_add (suc m) n =
    let k : suc m + n ≡ suc (m + n) = omega arith in ap zeros k ∙ ap (◌∷◌ 0) (zeros_add m n)

-- A new buffer holds nothing.
pub new_buffer-Holds : (initial_size : ℕ) → Holds (new_buffer initial_size) []
unfolding new_buffer
new_buffer-Holds initial_size = record {
  front = replicate 8 0;
  back = replicate initial_size 0;
  parts = zeros_add 8 initial_size;
  at_reader = refl;
  at_writer = refl;
  prepend = omega arith;
}

module _ (b : Buffer) (content : Bytes) (h : Holds b content) where
  ensure-Holds :
      (len : ℕ)
      → Holds (ensure_writable_bytes b len) content
        × (len ≤ writable_bytes (ensure_writable_bytes b len))
  unfolding ensure_writable_bytes
  ensure-Holds len = elim (Bool-cases (ltb (writable_bytes b) len)) [
    | inl few ↦
        rw (few, ensure_writable_bytes) (make_space-Holds b content h len (ground (arith, few)))
    | inr enough ↦ rw (enough, ensure_writable_bytes) ((h, ground (arith, enough)))
  ]

  -- On a buffer that holds a content, `append` first makes space for the whole input, and then the
  -- buffer holds the content with the input behind it.
  pub append-Holds :
      (input : Bytes)
      → Holds (append b input) (content ++ input)
        × (length input ≤ writable_bytes (ensure_writable_bytes b (length input)))
  unfolding append
  append-Holds input =
      let (h', space) = ensure-Holds (length input) in
      (write_at_end-Holds (ensure_writable_bytes b (length input)) content h' input, space)

  empty-Holds : Holds (retrieve_all b) []
  unfolding retrieve_all
  empty-Holds = record {
    front = take cheap_prepend b.bytes;
    back = drop cheap_prepend b.bytes;
    parts = sym (cut_at cheap_prepend b.bytes);
    at_reader = first_size;
    at_writer = omega (arith, first_size);
    prepend = omega (arith, first_size);
  }
    where
      first_size : length (take cheap_prepend b.bytes) ≡ cheap_prepend
      first_size =
          take_size cheap_prepend b.bytes (omega (arith, size b content h, h.at_writer, h.prepend))

  rest-Holds : (len : ℕ) → len ≤ length content → Holds (retrieve b len) (drop len content)
  unfolding retrieve
  rest-Holds len le = elim (Bool-cases (ltb len (readable_bytes b))) [
    | inl some_left ↦
        rw (some_left, retrieve)
          (record {
            front = h.front ++ take len content;
            back = h.back;
            parts =
                h.parts
                ∙ ap (λ (x : Bytes). h.front ++ (x ++ h.back)) (sym (cut_at len content))
                ∙ simp (append_assoc);
            at_reader = omega (
              arith,
              length-append h.front (take len content),
              take_size len content le,
              h.at_reader,
            );
            at_writer =
                (let e = ap length (cut_at len content) in
                  omega (
                    arith,
                    e,
                    length-append h.front (take len content),
                    length-append (take len content) (drop len content),
                    h.at_writer,
                  ));
            prepend = omega (arith, length-append h.front (take len content), h.prepend);
          })
    | inr all_read ↦
        let few : length content ≤ len = ground (arith, readable b content h) in
        rw (all_read, drop_whole len content few, retrieve) empty-Holds
  ]

  -- On a buffer that holds a content, `retrieveAsString` of at most as many bytes gives the first
  -- bytes of the content, and the buffer holds the others.
  pub retrieve_as_string-Holds :
      (len : ℕ)
      → len ≤ length content
      → ((retrieve_as_string b len).0 ≡ take len content)
        × Holds (retrieve_as_string b len).1 (drop len content)
  unfolding retrieve_as_string
  retrieve_as_string-Holds len le =
      (ap (take len) (peeked b content h) ∙ take_within len content h.back le, rest-Holds len le)

  -- On a buffer that holds a content, `retrieveAllAsString` gives all of it and leaves a buffer that
  -- holds nothing.
  pub retrieve_all_as_string-Holds :
      ((retrieve_all_as_string b).0 ≡ content) × Holds (retrieve_all_as_string b).1 []
  unfolding retrieve_all_as_string
  retrieve_all_as_string-Holds =
      let all = readable b content h in
      let (text, rest) = retrieve_as_string-Holds (readable_bytes b) (omega (arith, all)) in
      (
        text ∙ take_whole (readable_bytes b) content (omega (arith, all)),
        subst (Holds (retrieve_all_as_string b).1)
            (drop_whole (readable_bytes b) content (omega (arith, all))) rest,
      )

-- On a buffer that holds a content, `readFd` puts what was read from the socket behind the content,
-- whether it fits or part of it goes through the second block.
pub read_fd-Holds :
    (b : Buffer) (content : Bytes) (input : Bytes)
    → Holds b content
    → Holds (read_fd b input) (content ++ input)
unfolding read_fd
read_fd-Holds b content input h = elim (Bool-cases (leb (length input) (writable_bytes b))) [
  | inl fits ↦ rw (fits, read_fd) (write_at_end-Holds b content h input)
  | inr long ↦
      let first = take (writable_bytes b) input in
      let more = drop (writable_bytes b) input in
      let h' = write_at_end-Holds b content h first in
      let whole : (content ++ first) ++ more ≡ content ++ input =
        append_assoc content first more
        ∙ ap (λ (x : Bytes). content ++ x) (cut_at (writable_bytes b) input) in
      rw (long, read_fd)
        (subst (Holds (append (write_at_end b first) more)) whole
          (append-Holds (write_at_end b first) (content ++ first) h' more).0)
]
