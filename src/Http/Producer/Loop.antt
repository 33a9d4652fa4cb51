-- ===== src/Http/Producer/Loop.antt =====
-- The event loop's steps for a produced stream: each keeps it in its phases.
use mongoose_cpp.Prelude.{
  ℕ, suc, ◌≡◌, refl, sym, ◌∙◌, ap, subst, List, [], ◌∷◌, ◌++◌, some, Bytes, arith, inl, inr,
  get_elem?, append_assoc, false,
}
use mathlib.Core.List.{map-append}
use mongoose_cpp.Mongoose.{MgCall, http_write_chunk, ok}
use mongoose_cpp.Http.AsyncStream
use mongoose_cpp.Http.AsyncStream.{AsyncStream}
use mongoose_cpp.Http.AsyncStream.State.{StreamState, is_flush}
use mongoose_cpp.Http.Connection.{pump_async_stream}
use mongoose_cpp.Http.Connection.Pump.{chunk_calls}
use mongoose_cpp.Http.Endpoint.State.{System, Streams, emit, put_stream}
use mongoose_cpp.Http.Endpoint.Wakeup.{serve_stream, handle_wakeup}
use mongoose_cpp.Http.Endpoint.Wakeup.Lookup.{find_at}
use mongoose_cpp.Http.Endpoint.Wakeup.Streaming.{
  handle_wakeup_found, serve_stream_lem, stream_after,
}
use mongoose_cpp.Http.Safety.Backpressure.{IsFlushed}
use mongoose_cpp.Http.Producer.{Run}
use mongoose_cpp.Http.Producer.Pumping.{Pumped}
use mongoose_cpp.Http.Producer.Phases.{Phase, idle, flying, ending, ended}

pub ok-injective : {A : Type 0} {a b : A} → ok a ≡ ok b → a ≡ b
ok-injective e = cc e

-- The wake-up of a stream that is pending, in one of its states.
pub wakeup_in_state :
    (conn id ref : ℕ) (x : AsyncStream) (state : StreamState) (s : System)
    → find_at conn id s.pending_streams ≡ some (some ref)
    → get_elem? s.streams ref ≡ some x
    → x.state ≡ state
    → (streams : Streams) × (handle_wakeup conn id s
        ≡ ok (serve_stream conn id streams (some ref) x state s).1)
wakeup_in_state conn id ref x state s h hx e =
    let (streams, p) = handle_wakeup_found conn id ref x s h hx in
    (streams, p ∙ ap (λ st. ok (serve_stream conn id streams (some ref) x st s).1) e)

serve_data_keeps :
    (conn id ref : ℕ) (streams : Streams) (x : AsyncStream) (s : System)
    → (serve_stream conn id streams (some ref) x StreamState.has_data s).1.endpoint ≡ s.endpoint
unfolding serve_stream emit put_stream
serve_data_keeps conn id ref streams x s = refl

pump_busy :
    (io_size send_len : ℕ) (x : AsyncStream)
    → is_flush x.state ≡ false
    → pump_async_stream io_size send_len x ≡ x
unfolding pump_async_stream
pump_busy io_size send_len x h = rw h refl

pump-IsFlushed :
    (io_size send_len : ℕ) (x : AsyncStream)
    → IsFlushed x.state
    → IsFlushed (pump_async_stream io_size send_len x).state
unfolding pump_async_stream AsyncStream.mark_empty
pump-IsFlushed io_size send_len x f = ground (arith, f)

Pumped-IsFlushed :
    (io_size send_len : ℕ) (x y : AsyncStream)
    → Pumped io_size send_len x y
    → IsFlushed x.state
    → IsFlushed y.state
Pumped-IsFlushed io_size send_len x y (inl e) f = subst (λ z. IsFlushed z.state) (sym e) f
Pumped-IsFlushed io_size send_len x y (inr e) f =
    subst (λ z. IsFlushed z.state) (sym e) (pump-IsFlushed io_size send_len x f)

Pumped-busy :
    (io_size send_len : ℕ) (x y : AsyncStream)
    → Pumped io_size send_len x y
    → is_flush x.state ≡ false
    → y ≡ x
Pumped-busy io_size send_len x y (inl e) h = e
Pumped-busy io_size send_len x y (inr e) h = e ∙ pump_busy io_size send_len x h

module _ {conn id ref : ℕ} {base : List MgCall} {chunks : List Bytes} where
  pub wake-Phase :
      (r : Run) (n : ℕ) (s : System)
      → r.inbox ≡ suc n
      → handle_wakeup conn id r.system ≡ ok s
      → Phase conn id ref base chunks r
      → Phase conn id ref base chunks (record r { system = s; inbox = n })
  wake-Phase r n s h e (idle i) = absurd (omega (arith, h, i.quiet))
  wake-Phase r n s h e (ended i) = absurd (omega (arith, h, i.quiet))
  wake-Phase r n s h e (flying f) =
      let x = f.stream in
      let (streams, p) =
        wakeup_in_state conn id ref x StreamState.has_data r.system f.pending f.at f.state in
      let (_, calls, here, _, _) =
        serve_stream_lem conn id ref streams x StreamState.has_data r.system f.state f.at in
      let same = ok-injective (sym e ∙ p) in
      idle (record {
        stream = stream_after x StreamState.has_data;
        delivered = f.delivered ++ x.bytes ∷ [];
        pending =
            ap (λ t. find_at conn id t.pending_streams) same
            ∙ ap (λ t. find_at conn id t.pending_streams)
                (serve_data_keeps conn id ref streams x r.system)
            ∙ f.pending;
        at = ap (λ t. get_elem? t.streams ref) same ∙ here;
        state = tt;
        in_loop = f.in_loop;
        quiet = omega (arith, h, f.posted);
        split = append_assoc f.delivered (x.bytes ∷ []) r.todo ∙ f.split;
        calls =
            ap (λ t. t.calls) same
            ∙ calls
            ∙ ap (λ c. c ++ http_write_chunk conn x.bytes ∷ []) f.calls
            ∙ delivered_more base f.delivered x.bytes;
      })
    where
      delivered_more :
          (b : List MgCall) (d : List Bytes) (chunk : Bytes)
          → b ++ chunk_calls conn d ++ http_write_chunk conn chunk ∷ []
            ≡ b ++ chunk_calls conn (d ++ chunk ∷ [])
      delivered_more b d chunk =
          append_assoc b (chunk_calls conn d) (http_write_chunk conn chunk ∷ [])
          ∙ ap (λ c. b ++ c) (sym (map-append (http_write_chunk conn) d (chunk ∷ [])))
  wake-Phase r n s h e (ending f) =
      let x = f.stream in
      let (streams, p) =
        wakeup_in_state conn id ref x StreamState.close r.system f.pending f.at f.state in
      let (_, calls, here, _, _) =
        serve_stream_lem conn id ref streams x StreamState.close r.system f.state f.at in
      let same = ok-injective (sym e ∙ p) in
      ended (record {
        stream = stream_after x StreamState.close;
        at = ap (λ t. get_elem? t.streams ref) same ∙ here;
        state = refl;
        done = f.done;
        quiet = omega (arith, h, f.posted);
        calls =
            ap (λ t. t.calls) same
            ∙ calls
            ∙ ap (λ c. c ++ http_write_chunk conn [] ∷ []) f.calls
            ∙ append_assoc base (chunk_calls conn chunks) (http_write_chunk conn [] ∷ []);
      })

  -- A system that differs by pumped streams alone.
  pub Phase-Pumped :
      (io_size send_len : ℕ) (r : Run) (u : System)
      → u.calls ≡ r.system.calls
      → u.endpoint ≡ r.system.endpoint
      → ((x : AsyncStream)
          → get_elem? r.system.streams ref ≡ some x
          → (y : AsyncStream) × (get_elem? u.streams ref ≡ some y) × Pumped io_size send_len x y)
      → Phase conn id ref base chunks r
      → Phase conn id ref base chunks (record r { system = u })
  Phase-Pumped io_size send_len r u calls same pumped (idle i) =
      let (y, here, p) = pumped i.stream i.at in
      idle (record {
        stream = y;
        delivered = i.delivered;
        pending = ap (λ e. find_at conn id e.pending_streams) same ∙ i.pending;
        at = here;
        state = Pumped-IsFlushed io_size send_len i.stream y p i.state;
        in_loop = i.in_loop;
        quiet = i.quiet;
        split = i.split;
        calls = calls ∙ i.calls;
      })
  Phase-Pumped io_size send_len r u calls same pumped (flying f) =
      let (y, here, p) = pumped f.stream f.at in
      let still = Pumped-busy io_size send_len f.stream y p (ap is_flush f.state) in
      flying (record {
        stream = f.stream;
        delivered = f.delivered;
        pending = ap (λ e. find_at conn id e.pending_streams) same ∙ f.pending;
        at = here ∙ ap some still;
        state = f.state;
        in_loop = f.in_loop;
        posted = f.posted;
        split = f.split;
        calls = calls ∙ f.calls;
      })
  Phase-Pumped io_size send_len r u calls same pumped (ending f) =
      let (y, here, p) = pumped f.stream f.at in
      let still = Pumped-busy io_size send_len f.stream y p (ap is_flush f.state) in
      ending (record {
        stream = f.stream;
        pending = ap (λ e. find_at conn id e.pending_streams) same ∙ f.pending;
        at = here ∙ ap some still;
        state = f.state;
        done = f.done;
        posted = f.posted;
        calls = calls ∙ f.calls;
      })
  Phase-Pumped io_size send_len r u calls same pumped (ended f) =
      let (y, here, p) = pumped f.stream f.at in
      let still = Pumped-busy io_size send_len f.stream y p (ap is_flush f.state) in
      ended (record {
        stream = f.stream;
        at = here ∙ ap some still;
        state = f.state;
        done = f.done;
        quiet = f.quiet;
        calls = calls ∙ f.calls;
      })
