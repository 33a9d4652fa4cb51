-- ===== src/Http/Producer/Answer.antt =====
-- A streamed answer as a whole: the call of `stream`, its wake-up, and the thread that produces the
-- chunks.
use mongoose_cpp.Prelude.{
  ℕ, ◌≡◌, refl, sym, ◌∙◌, ap, subst, true, false, List, [], ◌∷◌, ◌++◌, none, some, Bytes, ℤ,
  get_elem?, set, length, get_elem?-lt, get_elem?-set_self, get_elem?-append_end, append_assoc,
}
use mongoose_cpp.Table.{find}
use mongoose_cpp.Table.Keys.{nat_key}
use mongoose_cpp.Mongoose.{send_bytes, ok, posted}
use mongoose_cpp.Http.Headers
use mongoose_cpp.Http.Status
use mongoose_cpp.Http.AsyncStream
use mongoose_cpp.Http.AsyncStream.{AsyncStream}
use mongoose_cpp.Http.AsyncStream.State.{StreamState}
use mongoose_cpp.Http.AsyncResponse.{AsyncResponse, stream_headers}
use mongoose_cpp.Http.AsyncResponse.{stream as stream_response}
use mongoose_cpp.Http.AsyncResponse.State.{is_pending, ResponseState}
use mongoose_cpp.Http.Connection.{Connection}
use mongoose_cpp.Http.Endpoint.State.{System, Env, Responses, stream, user_action}
use mongoose_cpp.Http.Endpoint.Wakeup.{handle_wakeup}
use mongoose_cpp.Http.Endpoint.Wakeup.Lookup.{find_at}
use mongoose_cpp.Http.Endpoint.Wakeup.Streaming.{stream_started}
use mongoose_cpp.Http.Safety.Inv.{Inv}
use mongoose_cpp.Http.Safety.Users.{user_action-Inv}
use mongoose_cpp.Http.Safety.Wakeup.{handle_wakeup-Inv}
use mongoose_cpp.Http.Producer.{Run, Steps, here}
use mongoose_cpp.Http.Producer.Loop.{ok-injective}
use mongoose_cpp.Http.Producer.Phases.{whole}
use mongoose_cpp.Http.Producer.Finish.{HasRoom, producer_finishes}

-- What a streamed answer begins with.
abbrev pub stream_preamble : Env → AsyncResponse → ℤ → Bytes → Bytes
stream_preamble env r code encoding =
    Status.preamble code
      (Headers.format env.header_order (stream_headers r.headers encoding) false 0)

-- A thread that begins to produce the chunks of a stream.
abbrev pub producing : System → List Bytes → Run
producing s chunks = record { system = s; todo = chunks; is_done = false; inbox = 0 }

-- The response and the system behind the call of `stream`.
abbrev streaming : Env → AsyncResponse → System → Bytes → AsyncResponse
streaming env r s encoding = record r {
  headers = stream_headers r.headers encoding;
  state = ResponseState.streaming;
  stream = some (length s.streams);
}

abbrev streamed : Env → System → ℕ → AsyncResponse → ℤ → Bytes → System
streamed env s ref r code encoding = record s {
  responses = set s.responses ref (streaming env r s encoding);
  streams = s.streams ++ AsyncStream.new r.conn r.id (stream_preamble env r code encoding) ∷ [];
  signals = s.signals ++ (r.conn, r.id) ∷ [];
}

stream_action :
    (env : Env) (s : System) (ref : ℕ) (r : AsyncResponse) (code : ℤ) (encoding : Bytes)
    → get_elem? s.responses ref ≡ some r
    → is_pending r.state ≡ true
    → user_action env s ref (stream code encoding posted) ≡ streamed env s ref r code encoding
unfolding user_action stream_response
stream_action env s ref r code encoding hr h = rw (hr, user_action) (rw h refl)

-- Where the invariant of the endpoint holds, a response is pending whose connection has no stream under
-- its number, and there is a connection on whose write events there is room: once a user has called
-- `stream` on the response, the wake-up of that call takes the response off the pending ones, and a
-- thread that then produces chunks can go on, with its wake-ups and write events, to where the
-- connection has got the preamble with the headers set before, all chunks in their order and each
-- once, and the chunk that ends the answer, and nothing else, and the stream is completed.
pub streamed_answer_delivered :
    (env : Env) (s : System) (ref : ℕ) (responses : Responses) (r : AsyncResponse) (code : ℤ)
    (encoding : Bytes) (chunks : List Bytes) (w : Connection)
    → Inv s
    → HasRoom env w
    → find_at r.conn r.id s.pending_streams ≡ none
    → find nat_key r.conn s.pending_responses ≡ some responses
    → find nat_key r.id responses ≡ some ref
    → get_elem? s.responses ref ≡ some r
    → is_pending r.state ≡ true
    → (s1 : System) × (u : Run) × (handle_wakeup r.conn r.id
          (user_action env s ref (stream code encoding posted))
        ≡ ok s1)
      × (find_at r.conn r.id s1.pending_responses ≡ none)
      × Steps env r.conn r.id (length s.streams) (producing s1 chunks) u
      × (u.system.calls
          ≡ s.calls
            ++ (send_bytes r.conn (stream_preamble env r code encoding) ∷ whole r.conn chunks))
      × ((x : AsyncStream) × (get_elem? u.system.streams (length s.streams) ≡ some x)
          × (x.state ≡ StreamState.completed))
unfolding AsyncStream.new
streamed_answer_delivered env s ref responses r code encoding chunks w v room hs hc hi hr h =
    let sent = streamed env s ref r code encoding in
    let q = stream_action env s ref r code encoding hr h in
    let (s1, e, calls, at, pending, gone) =
      stream_started r.conn r.id ref (length s.streams) responses (streaming env r s encoding)
        (AsyncStream.new r.conn r.id (stream_preamble env r code encoding)) sent hs hc
        (v.responses_unique r.conn responses hc) hi
        (get_elem?-set_self s.responses ref _ (get_elem?-lt s.responses ref hr)) refl refl
        (get_elem?-append_end s.streams _) refl in
    let (t1, e1, v1) =
      handle_wakeup-Inv r.conn r.id sent
        (subst Inv q (user_action-Inv env s ref (stream code encoding posted) v)) in
    let inv = subst Inv (ok-injective (sym e1 ∙ e)) v1 in
    let (u, path, all, _, completed) =
      producer_finishes env r.conn r.id (length s.streams) w (producing s1 chunks)
        (producing s1 chunks) room (inv, pending, (_, at, tt), refl, refl) here in
    (
      s1,
      u,
      ap (handle_wakeup r.conn r.id) q ∙ e,
      gone,
      path,
      all
          ∙ ap (λ c. c ++ whole r.conn chunks) calls
          ∙ append_assoc s.calls (send_bytes r.conn (stream_preamble env r code encoding) ∷ [])
              (whole r.conn chunks),
      completed,
    )
