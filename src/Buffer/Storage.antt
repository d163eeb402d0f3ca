-- ===== src/Buffer/Storage.antt =====
-- include/Buffer.h: `Buffer`, and `readFd` of src/Buffer.cc.
use cpp_ai_service.Base.{
  ℕ, ◌+◌, ◌-◌, Bytes, ◌++◌, leb, ltb, length, take, drop, replicate, if◌then◌else◌,
}

pub record Buffer : Type 0 where
  pub bytes : Bytes
  pub reader_index : ℕ
  pub writer_index : ℕ

abbrev pub cheap_prepend : ℕ
cheap_prepend = 8

unfoldable pub new_buffer : ℕ → Buffer
new_buffer initial_size = record {
  bytes = replicate (cheap_prepend + initial_size) 0;
  reader_index = cheap_prepend;
  writer_index = cheap_prepend;
}

abbrev pub readable_bytes : Buffer → ℕ
readable_bytes b = b.writer_index - b.reader_index

abbrev pub writable_bytes : Buffer → ℕ
writable_bytes b = length b.bytes - b.writer_index

abbrev pub peek : Buffer → Bytes
peek b = drop b.reader_index b.bytes

unfoldable pub retrieve_all : Buffer → Buffer
retrieve_all b = record b { reader_index = cheap_prepend; writer_index = cheap_prepend }

unfoldable pub retrieve : Buffer → ℕ → Buffer
retrieve b len =
    if ltb len (readable_bytes b)
    then record b { reader_index = b.reader_index + len }
    else retrieve_all b

unfoldable pub retrieve_as_string : Buffer → ℕ → Bytes × Buffer
retrieve_as_string b len = (take len (peek b), retrieve b len)

unfoldable pub retrieve_all_as_string : Buffer → Bytes × Buffer
retrieve_all_as_string b = retrieve_as_string b (readable_bytes b)

-- `buffer_.resize(size)`.
unfoldable pub resize : Bytes → ℕ → Bytes
resize bytes size = take size bytes ++ replicate (size - length bytes) 0

-- `std::copy` of the input to the bytes from `start` on.
unfoldable pub copy_to : Bytes → ℕ → Bytes → Bytes
copy_to bytes start input = take start bytes ++ (input ++ drop (start + length input) bytes)

unfoldable pub make_space : Buffer → ℕ → Buffer
make_space b len =
    if ltb (writable_bytes b + b.reader_index) (len + cheap_prepend)
    then record b { bytes = resize b.bytes (b.writer_index + len) }
    else record {
      bytes = copy_to b.bytes cheap_prepend (take (readable_bytes b) (peek b));
      reader_index = cheap_prepend;
      writer_index = cheap_prepend + readable_bytes b;
    }

unfoldable pub ensure_writable_bytes : Buffer → ℕ → Buffer
ensure_writable_bytes b len = if ltb (writable_bytes b) len then make_space b len else b

-- The copy behind the writer index, which moves on.
unfoldable pub write_at_end : Buffer → Bytes → Buffer
write_at_end b input = record b {
  bytes = copy_to b.bytes b.writer_index input;
  writer_index = b.writer_index + length input;
}

unfoldable pub append : Buffer → Bytes → Buffer
append b input = write_at_end (ensure_writable_bytes b (length input)) input

-- `readFd` where `readv` read the input: what fits goes behind the writer index, the rest is appended.
unfoldable pub read_fd : Buffer → Bytes → Buffer
read_fd b input =
    if leb (length input) (writable_bytes b)
    then write_at_end b input
    else append (write_at_end b (take (writable_bytes b) input)) (drop (writable_bytes b) input)
