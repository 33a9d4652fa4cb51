-- ===== src/Http/Connection/Truncation.antt =====
-- What a client reads of a chunked answer whose producer returns an empty string.
use mathlib.Core.Option
use mongoose_cpp.Prelude.{
  ℕ, suc, ◌+◌, ◌<◌, ◌≡◌, ◌≢◌, refl, ap, ◌∙◌, List, [], ◌∷◌, ◌++◌, Option, none, some, Bytes, All,
  arith, length, ltb, ltb→lt, Bool-cases, inl, inr,
}
use mongoose_cpp.Mongoose.{MgCall, http_write_chunk}
use mongoose_cpp.Http.Connection.{RemoteContext, pump_chunk}
use mongoose_cpp.Http.Connection.Pump.{
  pump_writes, pump_once, pump_backpressure, pump_drains, with_producer, Yields, chunk_calls, rooms,
}

-- The body as a client of the chunked encoding reads it: the chunks up to the first that is empty,
-- and `none` while there is no such chunk.
abbrev pub read_body : List MgCall → Option (List Bytes)
read_body [] = none
read_body (http_write_chunk conn [] ∷ calls) = some []
read_body (http_write_chunk conn (c ∷ s) ∷ calls) = Option.map (◌∷◌ (c ∷ s)) (read_body calls)
read_body (call ∷ calls) = none

-- The producer's next calls return these chunks.
abbrev pub Gives : (ℕ → Option Bytes) → ℕ → List Bytes → Type 0
Gives next n [] = Unit
Gives next n (chunk ∷ chunks) = (next n ≡ some chunk) × Gives next (suc n) chunks

-- As many write events with room as the producer gives chunks write these, and the producer is kept.
pump-Gives :
    (io_size conn : ℕ) (c : RemoteContext) (next : ℕ → Option Bytes) (n : ℕ) (chunks : List Bytes)
    (lens : List ℕ)
    → Gives next n chunks
    → rooms io_size lens ≡ length chunks
    → pump_writes io_size conn lens (with_producer c next n)
      ≡ (chunk_calls conn chunks, with_producer c next (n + length chunks))
unfolding pump_writes pump_chunk
pump-Gives io_size conn c next n [] [] g h =
    let shift : n ≡ n + 0 = omega arith in ap (λ k. ([], with_producer c next k)) shift
pump-Gives io_size conn c next n (chunk ∷ chunks) [] g h = absurd (omega (arith, h))
pump-Gives io_size conn c next n [] (len ∷ lens) g h = elim (Bool-cases (ltb len io_size)) [
  | inl room ↦ absurd (ground (arith, h))
  | inr full ↦
      rw (pump_backpressure io_size conn len (with_producer c next n) (ground arith))
        (rw (pump-Gives io_size conn c next n [] lens g (ground arith)))
]
pump-Gives io_size conn c next n (chunk ∷ chunks) (len ∷ lens) g h =
    let shift : suc n + length chunks ≡ n + length (chunk ∷ chunks) = omega arith in
    elim (Bool-cases (ltb len io_size)) [
      | inl room ↦ rw (
        pump_once io_size conn len c next n (ltb→lt len io_size room),
        g.0,
        pump_chunk,
        pump-Gives io_size conn c next (suc n) chunks lens g.1 (ground arith),
        shift,
      )
      | inr full ↦
          rw (pump_backpressure io_size conn len (with_producer c next n) (ground arith))
            (rw (pump-Gives io_size conn c next n (chunk ∷ chunks) lens g (ground arith)))
    ]

read_body-chunk_calls :
    (conn : ℕ) (chunks : List Bytes)
    → All (λ chunk. chunk ≢ []) chunks
    → read_body (chunk_calls conn (chunks ++ [] ∷ [])) ≡ some chunks
read_body-chunk_calls conn [] h = refl
read_body-chunk_calls conn ([] ∷ chunks) h = absurd (h.0 refl)
read_body-chunk_calls conn ((c ∷ s) ∷ chunks) h =
    ap (Option.map (◌∷◌ (c ∷ s))) (read_body-chunk_calls conn chunks h.1)

-- A producer that gives some chunks and then an empty one cuts its answer off: once as many write
-- events have found room, a client reads the chunks before the empty one as the whole body. The
-- producer is kept, and later write events write all its further chunks and the end behind that body.
pub empty_chunk_truncates :
    (io_size conn : ℕ) (c : RemoteContext) (next : ℕ → Option Bytes) (n : ℕ)
    (chunks further : List Bytes) (lens later : List ℕ)
    → All (λ chunk. chunk ≢ []) chunks
    → Gives next n (chunks ++ [] ∷ [])
    → Yields next (n + length (chunks ++ [] ∷ [])) further
    → rooms io_size lens ≡ length (chunks ++ [] ∷ [])
    → length further < rooms io_size later
    → let first =
        pump_writes io_size conn lens
          (record c { stream = some (record { next = next; calls = n }) }) in
      let rest = pump_writes io_size conn later first.1 in
      (read_body first.0 ≡ some chunks)
      × (first.1.stream ≡ some (record { next = next; calls = n + length (chunks ++ [] ∷ []) }))
      × (rest.0 ≡ chunk_calls conn further ++ http_write_chunk conn [] ∷ [])
      × (rest.1.stream ≡ none)
empty_chunk_truncates io_size conn c next n chunks further lens later full g y h k =
    let kept = pump-Gives io_size conn c next n (chunks ++ [] ∷ []) lens g h in
    let drained =
      pump_drains io_size conn c next (n + length (chunks ++ [] ∷ [])) further later y k in
    (
      ap (λ r. read_body r.0) kept ∙ read_body-chunk_calls conn chunks full,
      ap (λ r. r.1.stream) kept,
      ap (λ r. (pump_writes io_size conn later r.1).0) kept ∙ ap (λ r. r.0) drained,
      ap (λ r. (pump_writes io_size conn later r.1).1.stream) kept ∙ ap (λ r. r.1.stream) drained,
    )
