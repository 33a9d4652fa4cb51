-- ===== src/Http/Connection/Pump.antt =====
-- The pump of a synchronous stream over the write events of its connection.
use mongoose_cpp.Prelude.{
  ℕ, suc, ◌+◌, ◌<◌, ◌≤◌, ◌≡◌, refl, List, [], ◌∷◌, ◌++◌, Option, none, some, Bytes, arith, length,
  map, ltb, ltb→lt, Bool-cases, inl, inr, if◌then◌else◌,
}
use mongoose_cpp.Mongoose.{MgCall, http_write_chunk}
use mongoose_cpp.Http.Connection.{RemoteContext, pump_stream, pump_chunk}

-- The write events of a connection, by what its send buffer holds at each.
unfoldable pub pump_writes : ℕ → ℕ → List ℕ → RemoteContext → List MgCall × RemoteContext
pump_writes io_size conn [] c = ([], c)
pump_writes io_size conn (len ∷ lens) c =
    let (calls, pumped) = pump_stream io_size conn len c in
    let (later, last) = pump_writes io_size conn lens pumped in (calls ++ later, last)

-- The producer's next calls return these chunks, and then the end.
abbrev pub Yields : (ℕ → Option Bytes) → ℕ → List Bytes → Type 0
Yields next n [] = next n ≡ none
Yields next n (chunk ∷ chunks) = (next n ≡ some chunk) × Yields next (suc n) chunks

abbrev pub chunk_calls : ℕ → List Bytes → List MgCall
chunk_calls conn chunks = map (http_write_chunk conn) chunks

abbrev pub with_producer : RemoteContext → (ℕ → Option Bytes) → ℕ → RemoteContext
with_producer c next n = record c { stream = some (record { next = next; calls = n }) }

-- One pull, on a buffer with room.
pub pump_once :
    (io_size conn len : ℕ) (c : RemoteContext) (next : ℕ → Option Bytes) (n : ℕ)
    → len < io_size
    → pump_stream io_size conn len (with_producer c next n)
      ≡ pump_chunk conn (with_producer c next n) (record { next = next; calls = suc n }) (next n)
unfolding pump_stream
pump_once io_size conn len c next n h = ground arith

-- A pump without a producer does nothing.
pump_idle :
    (io_size conn : ℕ) (lens : List ℕ) (c : RemoteContext)
    → pump_writes io_size conn lens (record c { stream = none }) ≡ ([], record c { stream = none })
unfolding pump_writes pump_stream
pump_idle io_size conn [] c = refl
pump_idle io_size conn (len ∷ lens) c = rw (pump_idle io_size conn lens c)

-- A write event on a full buffer writes nothing, calls no producer and changes nothing.
pub pump_backpressure :
    (io_size conn len : ℕ) (c : RemoteContext)
    → io_size ≤ len
    → pump_stream io_size conn len c ≡ ([], c)
unfolding pump_stream
pump_backpressure io_size conn len c h = ground arith

-- The number of write events that find room in the buffer.
abbrev pub rooms : ℕ → List ℕ → ℕ
rooms io_size [] = 0
rooms io_size (len ∷ lens) = (if ltb len io_size then 1 else 0) + rooms io_size lens

-- Whatever the write events find in the buffer, once more of them have found room than the producer
-- has chunks left, every chunk has been written, once and in order, the empty chunk that ends the
-- answer behind them and nothing else, and the producer is let go.
pub pump_drains :
    (io_size conn : ℕ) (c : RemoteContext) (next : ℕ → Option Bytes) (n : ℕ) (chunks : List Bytes)
    (lens : List ℕ)
    → Yields next n chunks
    → length chunks < rooms io_size lens
    → pump_writes io_size conn lens (record c { stream = some (record { next = next; calls = n }) })
      ≡ (chunk_calls conn chunks ++ http_write_chunk conn [] ∷ [], record c { stream = none })
unfolding pump_writes pump_chunk
pump_drains io_size conn c next n chunks [] y h = absurd (omega arith)
pump_drains io_size conn c next n [] (len ∷ lens) y h = elim (Bool-cases (ltb len io_size)) [
  | inl room ↦ rw (
    pump_once io_size conn len c next n (ltb→lt len io_size room),
    y,
    pump_chunk,
    pump_idle io_size conn lens c,
  )
  | inr full ↦
      rw (pump_backpressure io_size conn len (with_producer c next n) (ground arith))
        (rw (pump_drains io_size conn c next n [] lens y (ground arith)))
]
pump_drains io_size conn c next n (chunk ∷ chunks) (len ∷ lens) y h =
    elim (Bool-cases (ltb len io_size)) [
      | inl room ↦ rw (
        pump_once io_size conn len c next n (ltb→lt len io_size room),
        y.0,
        pump_chunk,
        pump_drains io_size conn c next (suc n) chunks lens y.1 (ground arith),
      )
      | inr full ↦
          rw (pump_backpressure io_size conn len (with_producer c next n) (ground arith))
            (rw (pump_drains io_size conn c next n (chunk ∷ chunks) lens y (ground arith)))
    ]
