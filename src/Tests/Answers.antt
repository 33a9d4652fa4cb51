-- ===== src/Tests/Answers.antt =====
-- Answers by handlers and producers: the synchronous response, its producer, the asynchronous response and the asynchronous stream.
use mongoose_cpp.Prelude.{
  ◌≡◌, refl, true, false, [], ◌∷◌, Option, none, some, Bytes, codes, ℕ, zero, suc, pos, arith,
  replicate,
}
use mongoose_cpp.Table.Order.{insertion_order}
use mongoose_cpp.Mongoose.{http_reply, http_write_chunk, ok, posted}
use mongoose_cpp.Http.AsyncStream
use mongoose_cpp.Http.AsyncStream.{AsyncStream}
use mongoose_cpp.Http.AsyncStream.State.{StreamState}
use mongoose_cpp.Http.AsyncStream.Laws.{send_forgets_failure}
use mongoose_cpp.Http.Headers.{is_empty, format, format_loop}
use mongoose_cpp.Http.Headers.Laws.{setting}
use mongoose_cpp.Http.Connection.{RemoteContext}
use mongoose_cpp.Http.Connection.Pump.{pump_writes, pump_drains}
use mongoose_cpp.Http.Connection.Truncation.{read_body, empty_chunk_truncates}
use mongoose_cpp.Http.Response.{Run, header, send, act_all}
use mongoose_cpp.Http.Response.Laws.{first_answer_only}
use mongoose_cpp.Tests.Samples.{sample_context, promoted, sample_stream}

-- Two chunks, and the end.
abbrev two_chunks : ℕ → Option Bytes
two_chunks zero = some (codes "ab")
two_chunks (suc zero) = some (codes "c")
two_chunks _ = none

abbrev pumping : (ℕ → Option Bytes) → RemoteContext
pumping next = record sample_context { stream = some (record { next = next; calls = 0 }) }

pump_drains_example : pump_writes 10 7 (0 ∷ 10 ∷ 3 ∷ 4 ∷ 0 ∷ []) (pumping two_chunks) ≡ (
  http_write_chunk 7 (codes "ab") ∷ http_write_chunk 7 (codes "c") ∷ http_write_chunk 7 [] ∷ [],
  sample_context,
)
pump_drains_example =
    pump_drains 10 7 sample_context two_chunks 0 (codes "ab" ∷ codes "c" ∷ [])
      (0 ∷ 10 ∷ 3 ∷ 4 ∷ 0 ∷ []) (refl, (refl, refl)) (omega arith)

-- A chunk, an empty one, another chunk, and the end.
abbrev gap : ℕ → Option Bytes
gap zero = some (codes "ab")
gap (suc zero) = some []
gap (suc (suc zero)) = some (codes "c")
gap _ = none

empty_chunk_truncates_example :
    let first = pump_writes 10 7 (0 ∷ 12 ∷ 0 ∷ []) (pumping gap) in
    let rest = pump_writes 10 7 (0 ∷ 0 ∷ []) first.1 in
    (read_body first.0 ≡ some (codes "ab" ∷ []))
    × (first.1.stream ≡ some (record { next = gap; calls = 2 }))
    × (rest.0 ≡ http_write_chunk 7 (codes "c") ∷ http_write_chunk 7 [] ∷ [])
    × (rest.1.stream ≡ none)
empty_chunk_truncates_example =
    empty_chunk_truncates 10 7 sample_context gap 0 (codes "ab" ∷ []) (codes "c" ∷ [])
      (0 ∷ 12 ∷ 0 ∷ []) (0 ∷ 0 ∷ []) ((λ e. cc), tt) (refl, (refl, tt)) (refl, refl) refl
      (omega arith)

abbrev opened : Run
opened = record { response = record { is_open = true; headers = [] }; conn = promoted; calls = [] }

first_answer_only_example :
    (r' : Run) × (act_all insertion_order opened (
        header (setting (codes "A") (codes "1"))
        ∷ send (pos 200) (codes "hi")
        ∷ send (pos 404) []
        ∷ [])
      ≡ ok r')
    × (r'.calls ≡ http_reply 7 (pos 200) (codes "A: 1\r\n") (codes "hi") ∷ [])
    × (r'.conn ≡ promoted)
unfolding format format_loop package.mongoose_cpp.Http.Headers.Laws.apply
    package.mongoose_cpp.Http.Headers.set package.mongoose_cpp.Table.assign
first_answer_only_example =
    first_answer_only insertion_order opened sample_context
      (header (setting (codes "A") (codes "1"))
        ∷ send (pos 200) (codes "hi")
        ∷ send (pos 404) []
        ∷ [])
      refl refl

abbrev broken : AsyncStream
broken = AsyncStream.mark_failed (sample_stream StreamState.empty)

send_forgets_failure_example :
    (AsyncStream.failed broken ≡ true)
    × (AsyncStream.failed (AsyncStream.send broken (codes "x") posted).0 ≡ false)
    × (AsyncStream.wait (replicate 3 (AsyncStream.send broken (codes "x") posted).0.state) ≡ none)
send_forgets_failure_example =
    send_forgets_failure (sample_stream StreamState.empty) (codes "x") posted 3 (λ e. cc)
