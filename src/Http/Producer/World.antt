-- ===== src/Http/Producer/World.antt =====
-- A streamed answer in any world that an endpoint reaches.
use mongoose_cpp.Prelude.{
  ℕ, ◌<◌, ◌^◌, ◌≡◌, true, List, ◌∷◌, ◌++◌, none, some, Bytes, ℤ, length, get_elem?,
}
use mongoose_cpp.Mongoose.{send_bytes, ok, posted}
use mongoose_cpp.Http.AsyncStream.{AsyncStream}
use mongoose_cpp.Http.AsyncStream.State.{StreamState}
use mongoose_cpp.Http.AsyncResponse.{AsyncResponse}
use mongoose_cpp.Http.AsyncResponse.State.{is_pending}
use mongoose_cpp.Http.Connection.{Connection}
use mongoose_cpp.Http.Endpoint.State.{System, Env, stream, user_action}
use mongoose_cpp.Http.Endpoint.Wakeup.{handle_wakeup}
use mongoose_cpp.Http.Endpoint.Wakeup.Lookup.{find_at, find_at-found}
use mongoose_cpp.Http.Safety.Message.{CapturesFit}
use mongoose_cpp.Http.Safety.Reach.{World, Reach, start, Reach-WorldInv}
use mongoose_cpp.Http.Numbers.World.{Reach-IsNumbered}
use mongoose_cpp.Http.Numbers.Names.{no_stream_yet}
use mongoose_cpp.Http.Producer.{Run, Steps}
use mongoose_cpp.Http.Producer.Phases.{whole}
use mongoose_cpp.Http.Producer.Finish.{HasRoom}
use mongoose_cpp.Http.Producer.Answer.{stream_preamble, producing, streamed_answer_delivered}

-- In every world that a new endpoint reaches, while fewer than 2^64 asynchronous responses were made,
-- where a response is pending and waits for its answer, and there is a connection on whose write
-- events there is room: once a user has called `stream` on the response, the wake-up of that call,
-- which is served next, takes the response off the pending ones, and a thread that then produces
-- chunks can go on, with its wake-ups and write events, to where the connection has got the preamble
-- with the headers set before, all chunks in their order and each once, and the chunk that ends the
-- answer, and nothing else, and the stream is completed.
pub pending_stream_delivered :
    (env : Env) {w : World} (ref : ℕ) (r : AsyncResponse) (code : ℤ) (encoding : Bytes)
    (chunks : List Bytes) (writer : Connection)
    → CapturesFit env
    → Reach env start w
    → length w.system.responses < 2 ^ 64
    → HasRoom env writer
    → find_at r.conn r.id w.system.pending_responses ≡ some ref
    → get_elem? w.system.responses ref ≡ some r
    → is_pending r.state ≡ true
    → (s1 : System) × (u : Run) × (handle_wakeup r.conn r.id
          (user_action env w.system ref (stream code encoding posted))
        ≡ ok s1)
      × (find_at r.conn r.id s1.pending_responses ≡ none)
      × Steps env r.conn r.id (length w.system.streams) (producing s1 chunks) u
      × (u.system.calls
          ≡ w.system.calls
            ++ (send_bytes r.conn (stream_preamble env r code encoding) ∷ whole r.conn chunks))
      × ((x : AsyncStream) × (get_elem? u.system.streams (length w.system.streams) ≡ some x)
          × (x.state ≡ StreamState.completed))
pending_stream_delivered env {w} ref r code encoding chunks writer fit reached small room e hr
      waits =
    let s = w.system in
    let v = (Reach-WorldInv env fit reached).system_inv in
    let idle =
      no_stream_yet s r.conn r.id ref r v (Reach-IsNumbered env reached) small e hr waits in
    let (t, p, q) = find_at-found r.conn r.id s.pending_responses e in
    streamed_answer_delivered env s ref t r code encoding chunks writer v room idle p q hr waits
