-- ===== src/Http/Producer/Phases.antt =====
-- The phases of a stream between its producer and the event loop, and that every step stays in them.
use mongoose_cpp.Prelude.{
  ℕ, suc, ◌≡◌, refl, sym, ◌∙◌, ap, subst, true, false, List, [], ◌∷◌, ◌++◌, some, Bytes, get_elem?,
  get_elem?-lt, get_elem?-set_self, append-nil,
}
use mongoose_cpp.Table.{Table}
use mongoose_cpp.Mongoose.{MgCall, http_write_chunk, posted}
use mongoose_cpp.Http.AsyncStream
use mongoose_cpp.Http.AsyncStream.{AsyncStream}
use mongoose_cpp.Http.AsyncStream.State.{StreamState}
use mongoose_cpp.Http.Connection.Pump.{chunk_calls}
use mongoose_cpp.Http.Endpoint.State.{System, Streams, stream_send, stream_close}
use mongoose_cpp.Http.Endpoint.Wakeup.Lookup.{find_at}
use mongoose_cpp.Http.Safety.Backpressure.{IsFlushed}
use mongoose_cpp.Http.Producer.{Run, produce, turn, produce_next, after_wait}

-- What the connection is sent by chunks, and by the whole stream.
abbrev pub whole : ℕ → List Bytes → List MgCall
whole conn chunks = chunk_calls conn chunks ++ http_write_chunk conn [] ∷ []

-- The stream is pending, and with the producer or being flushed.
pub record Idle (conn id ref : ℕ) (base : List MgCall) (chunks : List Bytes) (r : Run)
    : Type 0 where
  pub stream : AsyncStream
  pub delivered : List Bytes
  pub pending : find_at conn id r.system.pending_streams ≡ some (some ref)
  pub at : get_elem? r.system.streams ref ≡ some stream
  pub state : IsFlushed stream.state
  pub in_loop : r.is_done ≡ false
  pub quiet : r.inbox ≡ 0
  pub split : delivered ++ r.todo ≡ chunks
  pub calls : r.system.calls ≡ base ++ chunk_calls conn delivered

-- The stream holds a chunk, whose wake-up is on its way.
pub record Flying (conn id ref : ℕ) (base : List MgCall) (chunks : List Bytes) (r : Run)
    : Type 0 where
  pub stream : AsyncStream
  pub delivered : List Bytes
  pub pending : find_at conn id r.system.pending_streams ≡ some (some ref)
  pub at : get_elem? r.system.streams ref ≡ some stream
  pub state : stream.state ≡ StreamState.has_data
  pub in_loop : r.is_done ≡ false
  pub posted : r.inbox ≡ 1
  pub split : delivered ++ stream.bytes ∷ r.todo ≡ chunks
  pub calls : r.system.calls ≡ base ++ chunk_calls conn delivered

-- The stream is closed, and the wake-up of that on its way.
pub record Ending (conn id ref : ℕ) (base : List MgCall) (chunks : List Bytes) (r : Run)
    : Type 0 where
  pub stream : AsyncStream
  pub pending : find_at conn id r.system.pending_streams ≡ some (some ref)
  pub at : get_elem? r.system.streams ref ≡ some stream
  pub state : stream.state ≡ StreamState.close
  pub done : r.is_done ≡ true
  pub posted : r.inbox ≡ 1
  pub calls : r.system.calls ≡ base ++ chunk_calls conn chunks

-- The end of the answer is sent.
pub record Ended (conn ref : ℕ) (base : List MgCall) (chunks : List Bytes) (r : Run) : Type 0 where
  pub stream : AsyncStream
  pub at : get_elem? r.system.streams ref ≡ some stream
  pub state : stream.state ≡ StreamState.completed
  pub done : r.is_done ≡ true
  pub quiet : r.inbox ≡ 0
  pub calls : r.system.calls ≡ base ++ whole conn chunks

pub data Phase (conn id ref : ℕ) (base : List MgCall) (chunks : List Bytes) (r : Run) : Type 0 where
  idle : Idle conn id ref base chunks r → Phase conn id ref base chunks r
  flying : Flying conn id ref base chunks r → Phase conn id ref base chunks r
  ending : Ending conn id ref base chunks r → Phase conn id ref base chunks r
  ended : Ended conn ref base chunks r → Phase conn id ref base chunks r

stream_send_lem :
    (s : System) (ref : ℕ) (x : AsyncStream) (chunk : Bytes)
    → get_elem? s.streams ref ≡ some x
    → let t = stream_send s ref chunk posted in
      (get_elem? t.streams ref ≡ some (record x { bytes = chunk; state = StreamState.has_data }))
      × (t.endpoint ≡ s.endpoint)
      × (t.calls ≡ s.calls)
unfolding stream_send AsyncStream.send
stream_send_lem s ref x chunk h =
    rw (h, stream_send)
      (get_elem?-set_self s.streams ref _ (get_elem?-lt s.streams ref h), refl, refl)

stream_close_lem :
    (s : System) (ref : ℕ) (x : AsyncStream)
    → get_elem? s.streams ref ≡ some x
    → let t = stream_close s ref posted in
      (get_elem? t.streams ref ≡ some (record x { bytes = []; state = StreamState.close }))
      × (t.endpoint ≡ s.endpoint)
      × (t.calls ≡ s.calls)
unfolding stream_close AsyncStream.close
stream_close_lem s ref x h =
    rw (h, stream_close)
      (get_elem?-set_self s.streams ref _ (get_elem?-lt s.streams ref h), refl, refl)

-- A turn of a thread in its loop.
pub produce_at :
    (ref : ℕ) (r : Run) (x : AsyncStream)
    → r.is_done ≡ false
    → get_elem? r.system.streams ref ≡ some x
    → produce ref r ≡ after_wait ref (AsyncStream.wait (x.state ∷ [])) r
unfolding produce turn
produce_at ref r x d h =
    ap (λ b. turn ref b (get_elem? r.system.streams ref) r) d ∙ ap (λ o. turn ref false o r) h

produce_done : (ref : ℕ) (r : Run) → r.is_done ≡ true → produce ref r ≡ r
unfolding produce turn
produce_done ref r d = ap (λ b. turn ref b (get_elem? r.system.streams ref) r) d

module _ {conn id ref : ℕ} {base : List MgCall} {chunks : List Bytes} where
  -- The thread of an empty stream sends its next chunk, or closes the stream.
  produce_next-Phase :
      (todo : List Bytes) (r : Run) (i : Idle conn id ref base chunks r)
      → r.todo ≡ todo
      → Phase conn id ref base chunks (produce_next ref todo r)
  unfolding produce_next
  produce_next-Phase [] r i e =
      let (here, same, calls) = stream_close_lem r.system ref i.stream i.at in
      ending (record {
        stream = _;
        pending =
            ap (λ (p : Table ℕ Streams). find_at conn id p) (ap (λ e. e.pending_streams) same)
            ∙ i.pending;
        at = here;
        state = refl;
        done = refl;
        posted = ap suc i.quiet;
        calls =
            calls
            ∙ i.calls
            ∙ ap (λ c. base ++ chunk_calls conn c)
                (sym (append-nil i.delivered) ∙ ap (λ t. i.delivered ++ t) (sym e) ∙ i.split);
      })
  produce_next-Phase (chunk ∷ rest) r i e =
      let (here, same, calls) = stream_send_lem r.system ref i.stream chunk i.at in
      flying (record {
        stream = _;
        delivered = i.delivered;
        pending =
            ap (λ (p : Table ℕ Streams). find_at conn id p) (ap (λ e. e.pending_streams) same)
            ∙ i.pending;
        at = here;
        state = refl;
        in_loop = i.in_loop;
        posted = ap suc i.quiet;
        split = ap (λ t. i.delivered ++ t) (sym e) ∙ i.split;
        calls = calls ∙ i.calls;
      })

  idle_turn :
      (r : Run) (i : Idle conn id ref base chunks r) (st : StreamState)
      → IsFlushed st
      → Phase conn id ref base chunks (after_wait ref (AsyncStream.wait (st ∷ [])) r)
  unfolding after_wait AsyncStream.wait
  idle_turn r i StreamState.flush f = idle i
  idle_turn r i StreamState.empty f = produce_next-Phase r.todo r i refl
  idle_turn r i StreamState.start f = elim f [ ]
  idle_turn r i StreamState.has_data f = elim f [ ]
  idle_turn r i StreamState.close f = elim f [ ]
  idle_turn r i StreamState.completed f = elim f [ ]
  idle_turn r i StreamState.failed f = elim f [ ]

  -- The thread's turn.
  pub produce-Phase :
      (r : Run) → Phase conn id ref base chunks r → Phase conn id ref base chunks (produce ref r)
  unfolding after_wait AsyncStream.wait
  produce-Phase r (idle i) =
      subst (Phase conn id ref base chunks) (sym (produce_at ref r i.stream i.in_loop i.at))
        (idle_turn r i i.stream.state i.state)
  produce-Phase r (flying f) =
      subst (Phase conn id ref base chunks)
        (sym (
          produce_at ref r f.stream f.in_loop f.at
          ∙ ap (λ st. after_wait ref (AsyncStream.wait (st ∷ [])) r) f.state))
        (flying f)
  produce-Phase r (ending e) =
      subst (Phase conn id ref base chunks) (sym (produce_done ref r e.done)) (ending e)
  produce-Phase r (ended e) =
      subst (Phase conn id ref base chunks) (sym (produce_done ref r e.done)) (ended e)
