-- ===== src/Http/Safety/Loops.antt =====
-- The loops of handle_write and handle_close.
use mongoose_cpp.Prelude.{
  ap, set, get_elem?, some, sym, ◌∙◌, ℕ, ◌≡◌, refl, ◌∙◌, ap, sym, subst, List, [], ◌∷◌, Option,
  arith, All,
}
use mongoose_cpp.Table.{Table}
use mongoose_cpp.Mongoose.{Outcome, ok, ◌>>=◌}
use mongoose_cpp.Http.AsyncStream
use mongoose_cpp.Http.AsyncStream.{AsyncStream}
use mongoose_cpp.Http.Connection.{pump_async_stream}
use mongoose_cpp.Http.Endpoint.State.{System, Streams, deref_stream, put_stream}
use mongoose_cpp.Http.Endpoint.Events.{pump_streams, pump_all, fail_streams}
use mongoose_cpp.Http.Safety.Valid.{
  ValidStream, Keeps, Keeps-refl, Keeps-set, Keeps-trans, ValidStream-Keeps,
}
use mongoose_cpp.Http.Safety.Maps.{All-of_find}
use mongoose_cpp.Http.Safety.Inv.{Inv}
use mongoose_cpp.Http.Safety.Serving.{Safe, put_stream-Inv}
use mongoose_cpp.Http.Safety.Pointers.{deref_stream_lem, GoodStream, good_streams}

-- A loop over streams returns, with the endpoint's maps as they were and every pointer good.
abbrev pub SafeLoop : System → Outcome System → Type 0
SafeLoop s m =
    (t : System) × (m ≡ ok t)
    × Inv t
    × (t.endpoint ≡ s.endpoint)
    × Keeps s.streams t.streams
    × (t.responses ≡ s.responses)

-- The first pointer of a loop is followed, its stream replaced, and the loop goes on.
loop_step :
    (s : System) (conn id : ℕ) (ref : Option ℕ) (g : AsyncStream → AsyncStream)
    → ((x : AsyncStream) → ((g x).conn ≡ x.conn) × ((g x).id ≡ x.id))
    → ValidStream s.streams ref conn id
    → Inv s
    → (x : AsyncStream) × (deref_stream s ref ≡ ok x)
      × Inv (put_stream s ref (g x))
      × ((put_stream s ref (g x)).endpoint ≡ s.endpoint)
      × Keeps s.streams (put_stream s ref (g x)).streams
      × ((put_stream s ref (g x)).responses ≡ s.responses)
unfolding put_stream
loop_step s conn id ref g same (k, x, e, h, c, i) v = (
  x,
  deref_stream_lem s ref k x e h,
  subst (λ z. Inv (put_stream s z (g x))) (sym e)
      (put_stream-Inv s k x (g x) h (same x).0 (same x).1 v),
  ap (λ z. (put_stream s z (g x)).endpoint) e,
  subst (λ z. Keeps s.streams (put_stream s z (g x)).streams) (sym e)
      (Keeps-set s.streams k x (g x) h (same x).0 (same x).1),
  ap (λ z. (put_stream s z (g x)).responses) e,
)

abbrev pub GoodStreams : List AsyncStream → ℕ → Streams → Type 0
GoodStreams xs conn t = All (GoodStream xs conn) t

pub GoodStreams-Keeps :
    (xs ys : List AsyncStream) (conn : ℕ) (t : Streams)
    → Keeps xs ys
    → GoodStreams xs conn t
    → GoodStreams ys conn t
GoodStreams-Keeps xs ys conn [] keep good = tt
GoodStreams-Keeps xs ys conn ((id, ref) ∷ t) keep good =
    (ValidStream-Keeps xs ys ref conn id keep good.0, GoodStreams-Keeps xs ys conn t keep good.1)

pub pump_place :
    (io_size send_len : ℕ) (x : AsyncStream)
    → ((pump_async_stream io_size send_len x).conn ≡ x.conn)
      × ((pump_async_stream io_size send_len x).id ≡ x.id)
unfolding pump_async_stream AsyncStream.mark_empty
pump_place io_size send_len x = ground arith

-- One pass of the inner loop.
pub pump_step :
    (io_size send_len id k : ℕ) (ref : Option ℕ) (t : Streams) (x : AsyncStream) (s : System)
    → ref ≡ some k
    → get_elem? s.streams k ≡ some x
    → pump_streams io_size send_len ((id, ref) ∷ t) s
      ≡ pump_streams io_size send_len t
          (record s { streams = set s.streams k (pump_async_stream io_size send_len x) })
unfolding pump_streams put_stream
pump_step io_size send_len id k ref t x s e h =
    ap
      (λ m. m >>= λ y.
        pump_streams io_size send_len t (put_stream s ref (pump_async_stream io_size send_len y)))
      (deref_stream_lem s ref k x e h)
    ∙ ap
        (λ z.
          pump_streams io_size send_len t (put_stream s z (pump_async_stream io_size send_len x)))
        e

fail_place :
    (x : AsyncStream)
    → ((AsyncStream.mark_failed x).conn ≡ x.conn) × ((AsyncStream.mark_failed x).id ≡ x.id)
unfolding AsyncStream.mark_failed
fail_place x = (refl, refl)

pump_streams-Inv :
    (io_size send_len conn : ℕ) (t : Streams) (s : System)
    → GoodStreams s.streams conn t
    → Inv s
    → SafeLoop s (pump_streams io_size send_len t s)
unfolding pump_streams
pump_streams-Inv io_size send_len conn [] s good v = (s, refl, v, refl, Keeps-refl s.streams, refl)
pump_streams-Inv io_size send_len conn ((id, ref) ∷ t) s good v =
    let g = pump_async_stream io_size send_len in
    let (x, e, w, same, keep, left) =
      loop_step s conn id ref g (pump_place io_size send_len) good.0 v in
    let (u, q, wu, su, ku, lu) =
      pump_streams-Inv io_size send_len conn t (put_stream s ref (g x))
        (GoodStreams-Keeps s.streams _ conn t keep good.1) w in
    (u, rw e q, wu, su ∙ same, Keeps-trans s.streams _ u.streams keep ku, lu ∙ left)

pub fail_streams-Inv :
    (conn : ℕ) (t : Streams) (s : System)
    → GoodStreams s.streams conn t
    → Inv s
    → SafeLoop s (fail_streams t s)
unfolding fail_streams
fail_streams-Inv conn [] s good v = (s, refl, v, refl, Keeps-refl s.streams, refl)
fail_streams-Inv conn ((id, ref) ∷ t) s good v =
    let g = AsyncStream.mark_failed in
    let (x, e, w, same, keep, left) = loop_step s conn id ref g fail_place good.0 v in
    let (u, q, wu, su, ku, lu) =
      fail_streams-Inv conn t (put_stream s ref (g x))
        (GoodStreams-Keeps s.streams _ conn t keep good.1) w in
    (u, rw e q, wu, su ∙ same, Keeps-trans s.streams _ u.streams keep ku, lu ∙ left)

-- Every connection's streams are good pointers.
abbrev pub AllGood : List AsyncStream → Table ℕ Streams → Type 0
AllGood xs m = All (λ (e : ℕ × Streams). GoodStreams xs e.0 e.1) m

pub AllGood-Keeps :
    (xs ys : List AsyncStream) (m : Table ℕ Streams) → Keeps xs ys → AllGood xs m → AllGood ys m
AllGood-Keeps xs ys [] keep good = tt
AllGood-Keeps xs ys ((conn, t) ∷ m) keep good =
    (GoodStreams-Keeps xs ys conn t keep good.0, AllGood-Keeps xs ys m keep good.1)

pump_all-Inv :
    (io_size send_len : ℕ) (m : Table ℕ Streams) (s : System)
    → AllGood s.streams m
    → Inv s
    → SafeLoop s (pump_all io_size send_len m s)
unfolding pump_all
pump_all-Inv io_size send_len [] s good v = (s, refl, v, refl, Keeps-refl s.streams, refl)
pump_all-Inv io_size send_len ((conn, t) ∷ m) s good v =
    let (u, q, wu, su, ku, lu) = pump_streams-Inv io_size send_len conn t s good.0 v in
    let (z, p, wz, sz, kz, lz) =
      pump_all-Inv io_size send_len m u (AllGood-Keeps s.streams u.streams m ku good.1) wu in
    (z, rw q p, wz, sz ∙ su, Keeps-trans s.streams u.streams z.streams ku kz, lz ∙ lu)

pub pump_pending-Inv :
    (io_size send_len : ℕ) (s : System)
    → Inv s
    → Safe (pump_all io_size send_len s.pending_streams s)
pump_pending-Inv io_size send_len s v =
    let (t, e, w, _, _, _) =
      pump_all-Inv io_size send_len s.pending_streams s
        (All-of_find (λ (e : ℕ × Streams). GoodStreams s.streams e.0 e.1) s.pending_streams
          v.streams_keys (λ conn t h. good_streams conn t s h v))
        v in
    (t, e, w)
