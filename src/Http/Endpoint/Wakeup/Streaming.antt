-- ===== src/Http/Endpoint/Wakeup/Streaming.antt =====
-- What one wake-up does for a stream, in each of its states.
use mongoose_cpp.Prelude.{
  ℕ, ◌≡◌, refl, ◌∙◌, ap, sym, Bool, true, false, List, [], ◌∷◌, ◌++◌, Option, none, some, get_elem?,
  get_elem?-lt, get_elem?-set_self, ==_refl, append-nil,
}
use mongoose_cpp.Table.{Table, find, IsUnique}
use mongoose_cpp.Table.Keys.{nat_key}
use mongoose_cpp.Mongoose.{MgCall, send_bytes, http_write_chunk, ok, ◌>>=◌}
use mongoose_cpp.Http.AsyncStream
use mongoose_cpp.Http.AsyncStream.{AsyncStream}
use mongoose_cpp.Http.AsyncStream.State.{StreamState}
use mongoose_cpp.Http.AsyncResponse
use mongoose_cpp.Http.AsyncResponse.{AsyncResponse}
use mongoose_cpp.Http.AsyncResponse.State.{is_streaming}
use mongoose_cpp.Http.Endpoint.State.{
  System, Streams, emit, deref_response, deref_stream, put_response, put_stream,
}
use mongoose_cpp.Http.Endpoint.Wakeup.{
  handle_stream, handle_response, handle_wakeup, handle_found_stream, handle_found_response,
  after_stream, after_response, promote_stream, serve_stream,
}
use mongoose_cpp.Http.Endpoint.Wakeup.Lookup.{find_at, find_in, find_at-assign_at, find_at-erase_at}
use mongoose_cpp.Http.Endpoint.Wakeup.Answers.{handle_stream_absent}

pub find_in-some :
    {V : Type 0} (id : ℕ) (o : Option (Table ℕ V)) {v : V}
    → find_in id o ≡ some v
    → (t : Table ℕ V) × (o ≡ some t) × (find nat_key id t ≡ some v)
find_in-some id none e = cc
find_in-some id (some t) e = (t, refl, e)

-- A wake-up for a pending stream reaches the switch over its state.
pub handle_stream_found :
    (conn id ref : ℕ) (x : AsyncStream) (s : System)
    → find_at conn id s.pending_streams ≡ some (some ref)
    → get_elem? s.streams ref ≡ some x
    → (streams : Streams) × (find nat_key conn s.pending_streams ≡ some streams)
      × (find nat_key id streams ≡ some (some ref))
      × (handle_stream conn id s ≡ ok (serve_stream conn id streams (some ref) x x.state s))
unfolding handle_stream deref_stream
handle_stream_found conn id ref x s h hx =
    let (streams, hc, hi) = find_in-some id (find nat_key conn s.pending_streams) h in
    (streams, hc, hi, rw (hc, handle_stream) (rw (hi, handle_found_stream) (rw (hx, deref_stream))))

-- What the wake-up of a pending stream writes, by the state in which it finds the stream.
abbrev pub stream_output : ℕ → AsyncStream → StreamState → List MgCall
stream_output conn x StreamState.start = send_bytes conn x.bytes ∷ []
stream_output conn x StreamState.has_data = http_write_chunk conn x.bytes ∷ []
stream_output conn x StreamState.close = http_write_chunk conn [] ∷ []
stream_output conn x _ = []

-- The stream that it leaves: flushing after its data went out, completed after its end.
abbrev pub stream_after : AsyncStream → StreamState → AsyncStream
stream_after x StreamState.start = record x { bytes = []; state = StreamState.flush }
stream_after x StreamState.has_data = record x { bytes = []; state = StreamState.flush }
stream_after x StreamState.close = record x { state = StreamState.completed }
stream_after x _ = x

pub serve_stream_lem :
    (conn id ref : ℕ) (streams : Streams) (x : AsyncStream) (state : StreamState) (s : System)
    → x.state ≡ state
    → get_elem? s.streams ref ≡ some x
    → let served = serve_stream conn id streams (some ref) x state s in
      (served.0 ≡ true)
      × (served.1.calls ≡ s.calls ++ stream_output conn x state)
      × (get_elem? served.1.streams ref ≡ some (stream_after x state))
      × (served.1.responses ≡ s.responses)
      × (served.1.pending_responses ≡ s.pending_responses)
unfolding serve_stream emit put_stream AsyncStream.get_data AsyncStream.mark_flush
    AsyncStream.mark_completed
serve_stream_lem conn id ref streams x StreamState.start s e h =
    (refl, refl, get_elem?-set_self s.streams ref _ (get_elem?-lt s.streams ref h), refl, refl)
serve_stream_lem conn id ref streams x StreamState.has_data s e h =
    (refl, refl, get_elem?-set_self s.streams ref _ (get_elem?-lt s.streams ref h), refl, refl)
serve_stream_lem conn id ref streams x StreamState.close s e h =
    (refl, refl, get_elem?-set_self s.streams ref _ (get_elem?-lt s.streams ref h), refl, refl)
serve_stream_lem conn id ref streams x _ s e h = (refl, sym (append-nil s.calls), h, refl, refl)

after_done : (conn id : ℕ) (r : Bool × System) → r.0 ≡ true → after_stream conn id r ≡ ok r.1
unfolding after_stream
after_done conn id (true, s) h = refl
after_done conn id (false, s) h = cc

-- A wake-up for a pending stream is served by the switch over its state alone.
pub handle_wakeup_found :
    (conn id ref : ℕ) (x : AsyncStream) (s : System)
    → find_at conn id s.pending_streams ≡ some (some ref)
    → get_elem? s.streams ref ≡ some x
    → (streams : Streams) × (handle_wakeup conn id s
        ≡ ok (serve_stream conn id streams (some ref) x x.state s).1)
unfolding handle_wakeup
handle_wakeup_found conn id ref x s h hx =
    let (streams, hc, hi, e) = handle_stream_found conn id ref x s h hx in
    let (done, _, _, _, _) = serve_stream_lem conn id ref streams x x.state s refl hx in
    (streams, ap (λ m. m >>= after_stream conn id) e ∙ after_done conn id _ done)

-- A wake-up for a pending stream writes what the stream's state calls for, and nothing else: its
-- preamble, its chunk, or the empty chunk that ends the answer, and nothing while it is flushed,
-- empty, completed or failed; it leaves the stream in the state that follows.
pub stream_wakeup :
    (conn id ref : ℕ) (x : AsyncStream) (s : System)
    → find_at conn id s.pending_streams ≡ some (some ref)
    → get_elem? s.streams ref ≡ some x
    → (s' : System) × (handle_wakeup conn id s ≡ ok s')
      × (s'.calls ≡ s.calls ++ stream_output conn x x.state)
      × (get_elem? s'.streams ref ≡ some (stream_after x x.state))
      × (s'.responses ≡ s.responses)
      × (s'.pending_responses ≡ s.pending_responses)
stream_wakeup conn id ref x s h hx =
    let (streams, e) = handle_wakeup_found conn id ref x s h hx in
    let (done, calls, left, same, pending) =
      serve_stream_lem conn id ref streams x x.state s refl hx in
    ((serve_stream conn id streams (some ref) x x.state s).1, e, calls, left, same, pending)

pub handle_response_streaming :
    (conn id ref : ℕ) (responses : Table ℕ ℕ) (r : AsyncResponse) (s : System)
    → find nat_key conn s.pending_responses ≡ some responses
    → find nat_key id responses ≡ some ref
    → get_elem? s.responses ref ≡ some r
    → is_streaming r.state ≡ true
    → handle_response conn id s ≡ handle_stream conn id (promote_stream conn id ref responses r s)
unfolding handle_response deref_response
handle_response_streaming conn id ref responses r s hc hi hr h =
    rw (hc, handle_response) (rw (hi, handle_found_response) (rw (hr, deref_response) (rw h)))

promoted_at :
    (conn id ref sref : ℕ) (responses : Table ℕ ℕ) (r : AsyncResponse) (s : System)
    → r.stream ≡ some sref
    → find_at conn id (promote_stream conn id ref responses r s).pending_streams ≡ some (some sref)
unfolding promote_stream AsyncResponse.get_stream put_response
promoted_at conn id ref sref responses r s e =
    find_at-assign_at conn id conn id r.stream s.pending_streams
    ∙ rw (==_refl conn) (rw (==_refl id) (ap some e))

serve_start_keeps :
    (conn id : ℕ) (streams : Streams) (ref : Option ℕ) (x : AsyncStream) (s : System)
    → (serve_stream conn id streams ref x StreamState.start s).1.endpoint ≡ s.endpoint
unfolding serve_stream emit put_stream
serve_start_keeps conn id streams none x s = refl
serve_start_keeps conn id streams (some ref) x s = refl

after_response_done : (conn : ℕ) (r : Bool × System) → r.0 ≡ true → after_response conn r ≡ r.1
unfolding after_response
after_response_done conn (true, s) h = refl
after_response_done conn (false, s) h = cc

-- The first wake-up for a response that streams sends the stream's preamble, moves the stream to the
-- pending ones and takes the response off the pending ones; the stream is flushing then.
pub stream_started :
    (conn id ref sref : ℕ) (responses : Table ℕ ℕ) (r : AsyncResponse) (x : AsyncStream)
    (s : System)
    → find_at conn id s.pending_streams ≡ none
    → find nat_key conn s.pending_responses ≡ some responses
    → IsUnique nat_key responses
    → find nat_key id responses ≡ some ref
    → get_elem? s.responses ref ≡ some r
    → is_streaming r.state ≡ true
    → r.stream ≡ some sref
    → get_elem? s.streams sref ≡ some x
    → x.state ≡ StreamState.start
    → (s' : System) × (handle_wakeup conn id s ≡ ok s')
      × (s'.calls ≡ s.calls ++ send_bytes conn x.bytes ∷ [])
      × (get_elem? s'.streams sref ≡ some (record x { bytes = []; state = StreamState.flush }))
      × (find_at conn id s'.pending_streams ≡ some (some sref))
      × (find_at conn id s'.pending_responses ≡ none)
unfolding handle_wakeup promote_stream put_response
stream_started conn id ref sref responses r x s hs hc hu hi hr h hsr hx start =
    let t = promote_stream conn id ref responses r s in
    let (streams, tc, ti, e) =
      handle_stream_found conn id sref x t (promoted_at conn id ref sref responses r s hsr) hx in
    let (done, calls, left, same, pending) =
      serve_stream_lem conn id sref streams x StreamState.start t start hx in
    (
      (serve_stream conn id streams (some sref) x StreamState.start t).1,
      ap (λ m. m >>= after_stream conn id) (handle_stream_absent conn id s hs)
          ∙ ap (λ m. m >>= λ a. ok (after_response conn a))
              (handle_response_streaming conn id ref responses r s hc hi hr h
                ∙ e
                ∙ ap (λ st. ok (serve_stream conn id streams (some sref) x st t)) start)
          ∙ ap ok (after_response_done conn _ done),
      calls,
      left,
      ap (λ e. find_at conn id e.pending_streams)
            (serve_start_keeps conn id streams (some sref) x t)
          ∙ promoted_at conn id ref sref responses r s hsr,
      ap (find_at conn id) pending
          ∙ find_at-erase_at conn id conn id responses s.pending_responses hc hu
          ∙ rw (==_refl conn) (rw (==_refl id)),
    )
