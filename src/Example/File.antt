-- ===== src/Example/File.antt =====
-- The file that the handlers of /file and /async/file stream, in examples/simple/src/main.cpp.
pub mod Chunks
use mongoose_cpp.Prelude.{
  ℕ, zero, suc, ◌+◌, ◌/◌, Bool, true, false, List, [], ◌∷◌, Option, none, some, Bytes, length, take,
  drop, ltb, if◌then◌else◌,
}
use mongoose_cpp.Http.Connection.{Producer}

-- An open `std::ifstream`: what is not read yet, and its `eof()`.
pub record Ifstream : Type 0 where
  pub rest : Bytes
  pub eof : Bool

unfoldable pub opened : Bytes → Ifstream
opened content = record { rest = content; eof = false }

-- `read` of `n` characters from a stream that is good: what it stores, and the stream; it meets the
-- end where there are fewer.
unfoldable pub read : ℕ → Ifstream → Bytes × Ifstream
read n f = (take n f.rest, record { rest = drop n f.rest; eof = ltb (length f.rest) n })

-- The producer of /file.
unfoldable pub next_chunk : Ifstream → Option Bytes × Ifstream
unfolding read
next_chunk f = if f.eof then (none, f) else let (chunk, later) = read 32 f in (some chunk, later)

-- The file after some calls of the producer.
unfoldable pub after_calls : Ifstream → ℕ → Ifstream
unfolding next_chunk
after_calls f zero = f
after_calls f (suc n) = (next_chunk (after_calls f n)).1

unfoldable pub file_producer : Ifstream → Producer
unfolding next_chunk after_calls
file_producer f = record { next = λ n. (next_chunk (after_calls f n)).0; calls = 0 }

-- The chunks that reading in steps of 32 gives until `eof()`, on fuel: the loop of /async/file.
unfoldable pub read_chunks : ℕ → Ifstream → List Bytes
unfolding read
read_chunks zero f = []
read_chunks (suc fuel) f =
    let (chunk, later) = read 32 f in
    let rest = read_chunks fuel later in if f.eof then [] else chunk ∷ rest

unfoldable pub file_chunks : Bytes → List Bytes
unfolding read_chunks opened
file_chunks content = read_chunks (length content / 32 + 1) (opened content)
