-- ===== src/Http/Endpoint/Wakeup.antt =====
-- What the event loop does with a wake-up: handle_stream, handle_response and handle_wakeup of
-- src/http/endpoint.cpp.
pub mod Lookup
pub mod Answers
pub mod Streaming
pub mod Race
use mongoose_cpp.Prelude.{
  ℕ, Bool, true, false, List, [], ◌∷◌, ◌++◌, Option, none, some, Bytes, codes, ℤ, pos, c_str,
  if◌then◌else◌,
}
use mongoose_cpp.Table.{Table, find, assign, erase}
use mongoose_cpp.Table.Keys.{nat_key}
use mongoose_cpp.Mongoose.{
  MgCall, http_reply, send_bytes, http_write_chunk, Outcome, ok, fault, ◌>>=◌,
}
use mongoose_cpp.Http.AsyncStream
use mongoose_cpp.Http.AsyncStream.{AsyncStream}
use mongoose_cpp.Http.AsyncStream.State.{StreamState}
use mongoose_cpp.Http.AsyncResponse
use mongoose_cpp.Http.AsyncResponse.{AsyncResponse}
use mongoose_cpp.Http.AsyncResponse.State.{is_streaming}
use mongoose_cpp.Http.Endpoint.State.{
  System, Streams, Responses, deref_response, deref_stream, put_response, put_stream, emit,
}

abbrev pub text_plain : Bytes
text_plain = codes "Content-Type: text/plain" ++ 13 ∷ 10 ∷ []

-- The constants of namespaces not_found and internal_server_error.
abbrev pub not_found_reply : ℕ → MgCall
not_found_reply conn = http_reply conn (pos 404) text_plain (codes "Not Found" ++ 10 ∷ [])

abbrev pub internal_server_error : ℕ → MgCall
internal_server_error conn =
    http_reply conn (pos 500) text_plain (codes "Internal Server Error" ++ 10 ∷ [])

-- `m[conn][id] = v` on a map of maps, which makes the inner map where there is none.
abbrev pub inner {ℓ} : {V : Type ℓ} → ℕ → Table ℕ (Table ℕ V) → Table ℕ V
inner conn m = elim (find nat_key conn m) [ none ↦ [] | some t ↦ t ]

abbrev pub assign_at {ℓ} : {V : Type ℓ} → ℕ → ℕ → V → Table ℕ (Table ℕ V) → Table ℕ (Table ℕ V)
assign_at conn id v m = assign nat_key conn (assign nat_key id v (inner conn m)) m

-- `streams.erase(it)`, and the connection's entry with it when that leaves no stream.
unfoldable pub drop_stream : ℕ → ℕ → Streams → Table ℕ Streams → Table ℕ Streams
drop_stream conn id streams m = elim (erase nat_key id streams) [
  | [] ↦ erase nat_key conn m
  | s ∷ rest ↦ assign nat_key conn (s ∷ rest) m
]

-- The switch over the stream's state.
unfoldable pub serve_stream :
    ℕ → ℕ → Streams → Option ℕ → AsyncStream → StreamState → System → Bool × System
unfolding drop_stream
serve_stream conn id streams ref x StreamState.start s =
    let (preamble, moved) = AsyncStream.get_data x in
    (true, put_stream (emit s (send_bytes conn preamble)) ref (AsyncStream.mark_flush moved))
serve_stream conn id streams ref x StreamState.has_data s =
    let (chunk, moved) = AsyncStream.get_data x in
    (true, put_stream (emit s (http_write_chunk conn chunk)) ref (AsyncStream.mark_flush moved))
serve_stream conn id streams ref x StreamState.close s =
    let t = put_stream (emit s (http_write_chunk conn [])) ref (AsyncStream.mark_completed x) in
    (
      true,
      record t {
        endpoint = record t.endpoint {
          pending_streams = drop_stream conn id streams t.pending_streams;
        };
      },
    )
serve_stream conn id streams ref x _ s = (true, s)

unfoldable pub handle_found_stream :
    ℕ → ℕ → Streams → Option (Option ℕ) → System → Outcome (Bool × System)
unfolding serve_stream
handle_found_stream conn id streams none s = ok (false, s)
handle_found_stream conn id streams (some ref) s = do
  x ← deref_stream s ref
  ok (serve_stream conn id streams ref x x.state s)

-- `conn` is the connection's id, `id` the number read from the wake-up's data.
unfoldable pub handle_stream : ℕ → ℕ → System → Outcome (Bool × System)
unfolding handle_found_stream
handle_stream conn id s = elim (find nat_key conn s.pending_streams) [
  | none ↦ ok (false, s)
  | some streams ↦ handle_found_stream conn id streams (find nat_key id streams) s
]

-- The response of a handler that streams: its stream moves to the pending streams.
unfoldable pub promote_stream : ℕ → ℕ → ℕ → Responses → AsyncResponse → System → System
promote_stream conn id ref responses r s =
    let (stream, moved) = AsyncResponse.get_stream r in
    let t = put_response s ref moved in
    record t {
      endpoint = record t.endpoint {
        pending_streams = assign_at conn id stream t.pending_streams;
        pending_responses = assign nat_key conn (erase nat_key id responses) t.pending_responses;
      };
    }

-- The response of a handler that sent its answer.
unfoldable pub deliver_response : ℕ → ℕ → ℕ → Responses → AsyncResponse → System → System
deliver_response conn id ref responses r s =
    let t =
      put_response
        (emit s (http_reply conn r.payload.code (c_str r.payload.headers) r.payload.body)) ref
        (AsyncResponse.mark_completed r) in
    record t {
      endpoint = record t.endpoint {
        pending_responses = assign nat_key conn (erase nat_key id responses) t.pending_responses;
      };
    }

unfoldable pub handle_found_response :
    ℕ → ℕ → Responses → Option ℕ → System → Outcome (Bool × System)
unfolding promote_stream deliver_response
handle_found_response conn id responses none s = ok (false, emit s (internal_server_error conn))
handle_found_response conn id responses (some ref) s = do
  r ← deref_response s ref
  if is_streaming r.state
      then handle_stream conn id (promote_stream conn id ref responses r s)
      else ok (true, deliver_response conn id ref responses r s)

unfoldable pub handle_response : ℕ → ℕ → System → Outcome (Bool × System)
unfolding handle_found_response
handle_response conn id s = elim (find nat_key conn s.pending_responses) [
  | none ↦ ok (false, emit s (internal_server_error conn))
  | some responses ↦ handle_found_response conn id responses (find nat_key id responses) s
]

unfoldable pub after_response : ℕ → Bool × System → System
after_response conn (true, s) = s
after_response conn (false, s) = emit s (internal_server_error conn)

unfoldable pub after_stream : ℕ → ℕ → Bool × System → Outcome System
unfolding after_response
after_stream conn id (true, s) = ok s
after_stream conn id (false, s) = do
  answered ← handle_response conn id s
  ok (after_response conn answered)

unfoldable pub handle_wakeup : ℕ → ℕ → System → Outcome System
unfolding after_stream
handle_wakeup conn id s = do answered ← handle_stream conn id s; after_stream conn id answered
