-- ===== src/Http/Safety/Serving.antt =====
-- The wake-up of a pending stream keeps the invariant.
use mongoose_cpp.Prelude.{
  ℕ, ◌≡◌, refl, ◌∙◌, ap, Bool, false, some, get_elem?, Option-cases, inl, inr,
}
use mongoose_cpp.Table.{find}
use mongoose_cpp.Table.Keys.{nat_key}
use mongoose_cpp.Mongoose.{MgCall, Outcome, ok}
use mongoose_cpp.Http.AsyncStream
use mongoose_cpp.Http.AsyncStream.{AsyncStream}
use mongoose_cpp.Http.AsyncStream.State.{StreamState}
use mongoose_cpp.Http.Endpoint.State.{System, Streams, emit, put_stream}
use mongoose_cpp.Http.Endpoint.Wakeup.{handle_stream, serve_stream, drop_stream}
use mongoose_cpp.Http.Endpoint.Wakeup.Lookup.{find_at}
use mongoose_cpp.Http.Endpoint.Wakeup.Answers.{handle_stream_absent}
use mongoose_cpp.Http.Endpoint.Wakeup.Streaming.{handle_stream_found}
use mongoose_cpp.Http.Safety.Valid.{ValidStream, Keeps-refl, Keeps-set, ValidResponse-Keeps}
use mongoose_cpp.Http.Safety.Maps.{
  AllAt-erased, find_at-drop_stream, drop_stream-IsUnique, drop_stream-InnerUnique,
}
use mongoose_cpp.Http.Safety.Inv.{Inv, Inv-store}

-- The step returns a state, and the invariant holds there.
abbrev pub Safe : Outcome System → Type 0
Safe m = (s : System) × (m ≡ ok s) × Inv s

abbrev pub SafeAnswer : Outcome (Bool × System) → Type 0
SafeAnswer m = (r : Bool × System) × (m ≡ ok r) × Inv r.1

pub emit-Inv : (s : System) (call : MgCall) → Inv s → Inv (emit s call)
unfolding emit
emit-Inv s call v =
    Inv-store s s.responses s.streams _ s.signals v (Keeps-refl s.streams) (λ ref conn id h. h)

-- A stream that is replaced under the same connection and number.
pub put_stream-Inv :
    (s : System) (k : ℕ) (x y : AsyncStream)
    → get_elem? s.streams k ≡ some x
    → y.conn ≡ x.conn
    → y.id ≡ x.id
    → Inv s
    → Inv (put_stream s (some k) y)
unfolding put_stream
put_stream-Inv s k x y h c i v =
    let keep = Keeps-set s.streams k x y h c i in
    Inv-store s s.responses _ s.calls s.signals v keep
      (λ ref conn id. ValidResponse-Keeps s.responses s.streams _ ref conn id keep)

drop-Inv :
    (conn id : ℕ) (streams : Streams) (s : System)
    → find nat_key conn s.pending_streams ≡ some streams
    → Inv s
    → Inv (record s {
      endpoint = record s.endpoint {
        pending_streams = drop_stream conn id streams s.pending_streams;
      };
    })
drop-Inv conn id streams s e v = record {
  responses_keys = v.responses_keys;
  streams_keys = drop_stream-IsUnique conn id streams s.pending_streams v.streams_keys;
  responses_unique = v.responses_unique;
  streams_unique =
      drop_stream-InnerUnique conn id streams s.pending_streams (v.streams_unique conn streams e)
        v.streams_keys v.streams_unique;
  responses_valid = v.responses_valid;
  streams_valid =
      AllAt-erased (λ c i ref. ValidStream s.streams ref c i)
        (λ c i ref. ValidStream s.streams ref c i) conn id s.pending_streams
        (drop_stream conn id streams s.pending_streams)
        (λ c i.
          find_at-drop_stream conn id c i streams s.pending_streams e
            (v.streams_unique conn streams e) v.streams_keys)
        (λ c i x _ h. h) v.streams_valid;
  groups_counted = v.groups_counted;
}

serve_stream-Inv :
    (conn id k : ℕ) (streams : Streams) (x : AsyncStream) (state : StreamState) (s : System)
    → find nat_key conn s.pending_streams ≡ some streams
    → get_elem? s.streams k ≡ some x
    → Inv s
    → Inv (serve_stream conn id streams (some k) x state s).1
unfolding serve_stream AsyncStream.get_data AsyncStream.mark_flush AsyncStream.mark_completed emit
    put_stream
serve_stream-Inv conn id k streams x StreamState.start s e h v =
    put_stream-Inv (emit s _) k x _ h refl refl (emit-Inv s _ v)
serve_stream-Inv conn id k streams x StreamState.has_data s e h v =
    put_stream-Inv (emit s _) k x _ h refl refl (emit-Inv s _ v)
serve_stream-Inv conn id k streams x StreamState.close s e h v =
    drop-Inv conn id streams _ e (put_stream-Inv (emit s _) k x _ h refl refl (emit-Inv s _ v))
serve_stream-Inv conn id k streams x _ s e h v = v

pub handle_stream-Inv : (conn id : ℕ) (s : System) → Inv s → SafeAnswer (handle_stream conn id s)
handle_stream-Inv conn id s v = elim (Option-cases (find_at conn id s.pending_streams)) [
  | inl e ↦ ((false, s), handle_stream_absent conn id s e, v)
  | inr (ref, e) ↦
      let (k, x, p, h, c, i) = v.streams_valid conn id ref e in
      let (streams, hc, hi, q) = handle_stream_found conn id k x s (e ∙ ap some p) h in
      (
        serve_stream conn id streams (some k) x x.state s,
        q,
        serve_stream-Inv conn id k streams x x.state s hc h v,
      )
]
