-- ===== src/Tests/Buffers.antt =====
-- The buffer of include/Buffer.h at concrete inputs.
use cpp_ai_service.Base.{◌≡◌, ◌≤◌, [], ◌∷◌, ◌++◌, codes, length, take, drop, arith, refl}
use cpp_ai_service.Buffer.Storage.{
  Buffer, append, read_fd, retrieve_as_string, writable_bytes, ensure_writable_bytes,
}
use cpp_ai_service.Buffer.Queue.{Holds}
use cpp_ai_service.Buffer.Reads.{append-Holds, read_fd-Holds, retrieve_as_string-Holds}

-- Ten bytes, of which `hi` are still to be read.
abbrev small : Buffer
small = record {
  bytes = 0 ∷ 0 ∷ 0 ∷ 0 ∷ 0 ∷ 0 ∷ 0 ∷ 0 ∷ codes "hi";
  reader_index = 8;
  writer_index = 10;
}

small-Holds : Holds small (codes "hi")
small-Holds = record {
  front = 0 ∷ 0 ∷ 0 ∷ 0 ∷ 0 ∷ 0 ∷ 0 ∷ 0 ∷ [];
  back = [];
  parts = refl;
  at_reader = refl;
  at_writer = refl;
  prepend = omega arith;
}

append-Holds_example :
    Holds (append small (codes "abc")) (codes "hi" ++ codes "abc")
    × (length (codes "abc") ≤ writable_bytes (ensure_writable_bytes small (length (codes "abc"))))
append-Holds_example = append-Holds small (codes "hi") small-Holds (codes "abc")

read_fd-Holds_example : Holds (read_fd small (codes "abc")) (codes "hi" ++ codes "abc")
read_fd-Holds_example = read_fd-Holds small (codes "hi") (codes "abc") small-Holds

retrieve_as_string-Holds_example :
    ((retrieve_as_string small 1).0 ≡ take 1 (codes "hi"))
    × Holds (retrieve_as_string small 1).1 (drop 1 (codes "hi"))
retrieve_as_string-Holds_example =
    retrieve_as_string-Holds small (codes "hi") small-Holds 1 (omega arith)
