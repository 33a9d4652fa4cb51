-- ===== src/Http/Producer/Pumping.antt =====
-- What a write event does to one shared stream, in whatever maps of pending streams it is.
use mongoose_cpp.Prelude.{
  ℕ, ◌==◌, ==_iff, ◌≡◌, refl, sym, ◌∙◌, ap, List, [], ◌∷◌, ◌++◌, some, arith, get_elem?, set,
  get_elem?-lt, get_elem?-set_self, get_elem?-set_ne, ◌⊎◌, Bool-cases, inl, inr, none, append-nil,
  subst,
}
use mongoose_cpp.Table.{Table}
use mongoose_cpp.Mongoose.{Outcome, ok, ◌>>=◌}
use mongoose_cpp.Http.AsyncStream
use mongoose_cpp.Http.AsyncStream.{AsyncStream}
use mongoose_cpp.Http.Connection.{
  Connection, RemoteContext, context, pump_async_stream, pump_stream,
}
use mongoose_cpp.Http.Endpoint.State.{System, Env, Streams}
use mongoose_cpp.Http.Endpoint.Events.{pump_streams, pump_all, handle_write}
use mongoose_cpp.Http.Safety.Inv.{Inv}
use mongoose_cpp.Http.Safety.Pointers.{good_streams}
use mongoose_cpp.Http.Safety.Loops.{
  GoodStreams, GoodStreams-Keeps, pump_place, pump_step, AllGood, AllGood-Keeps,
}
use mongoose_cpp.Http.Safety.Maps.{All-of_find}
use mongoose_cpp.Http.Safety.Message.{context_of_lem}
use mongoose_cpp.Http.Safety.Valid.{Keeps, Keeps-set, Keeps-refl, Keeps-trans}

pump_twice :
    (io_size send_len : ℕ) (x : AsyncStream)
    → pump_async_stream io_size send_len (pump_async_stream io_size send_len x)
      ≡ pump_async_stream io_size send_len x
unfolding pump_async_stream AsyncStream.mark_empty
pump_twice io_size send_len x = ground arith

-- A stream that a write event finds is pumped, or left alone where no map leads to it.
abbrev pub Pumped : ℕ → ℕ → AsyncStream → AsyncStream → Type 0
Pumped io_size send_len x y = (y ≡ x) ⊎ (y ≡ pump_async_stream io_size send_len x)

-- The loop returns, calls nothing and leaves the maps alone.
abbrev pub PumpsAll : ℕ → ℕ → System → Outcome System → Type 0
PumpsAll io_size send_len s m =
    (u : System) × (m ≡ ok u)
    × (u.calls ≡ s.calls)
    × (u.endpoint ≡ s.endpoint)
    × Keeps s.streams u.streams
    × ((k : ℕ) (x : AsyncStream)
        → get_elem? s.streams k ≡ some x
        → (y : AsyncStream) × (get_elem? u.streams k ≡ some y) × Pumped io_size send_len x y)

module _ (io_size send_len : ℕ) where
  Pumped-trans :
      (x y z : AsyncStream)
      → Pumped io_size send_len x y
      → Pumped io_size send_len y z
      → Pumped io_size send_len x z
  Pumped-trans x y z (inl e) (inl f) = inl (f ∙ e)
  Pumped-trans x y z (inl e) (inr f) = inr (f ∙ ap (pump_async_stream io_size send_len) e)
  Pumped-trans x y z (inr e) (inl f) = inr (f ∙ e)
  Pumped-trans x y z (inr e) (inr f) =
      inr (f ∙ ap (pump_async_stream io_size send_len) e ∙ pump_twice io_size send_len x)

  Pumped-set :
      (xs : List AsyncStream) (k : ℕ) (x : AsyncStream)
      → get_elem? xs k ≡ some x
      → (j : ℕ) (z : AsyncStream) → get_elem? xs j ≡ some z
      → (y : AsyncStream) × (get_elem? (set xs k (pump_async_stream io_size send_len x)) j ≡ some y)
        × Pumped io_size send_len z y
  Pumped-set xs k x h j z hz = elim (Bool-cases (k == j)) [
    | inl p ↦
        let same : k ≡ j = (==_iff k j).0 p in
        let one : x ≡ z = cc (h, hz, same) in
        let y = pump_async_stream io_size send_len x in
        (
          y,
          ap (get_elem? (set xs k y)) (sym same) ∙ get_elem?-set_self xs k y (get_elem?-lt xs k h),
          inr (ap (pump_async_stream io_size send_len) one),
        )
    | inr p ↦ (z, get_elem?-set_ne xs _ (λ r. ground arith) ∙ hz, inl refl)
  ]

  PumpsAll-trans :
      (s t : System) (m : Outcome System)
      → t.calls ≡ s.calls
      → t.endpoint ≡ s.endpoint
      → Keeps s.streams t.streams
      → ((k : ℕ) (x : AsyncStream)
          → get_elem? s.streams k ≡ some x
          → (y : AsyncStream) × (get_elem? t.streams k ≡ some y) × Pumped io_size send_len x y)
      → PumpsAll io_size send_len t m
      → PumpsAll io_size send_len s m
  PumpsAll-trans s t m calls same keep first (u, e, cu, eu, ku, second) = (
    u,
    e,
    cu ∙ calls,
    eu ∙ same,
    Keeps-trans s.streams t.streams u.streams keep ku,
    λ k x h.
        let (y, hy, p) = first k x h in
        let (z, hz, q) = second k y hy in (z, hz, Pumped-trans x y z p q),
  )

  pump_streams-pumps :
      (conn : ℕ) (t : Streams) (s : System)
      → GoodStreams s.streams conn t
      → PumpsAll io_size send_len s (pump_streams io_size send_len t s)
  unfolding pump_streams
  pump_streams-pumps conn [] s good =
      (s, refl, refl, refl, Keeps-refl s.streams, λ k x h. (x, h, inl refl))
  pump_streams-pumps conn ((id, ref) ∷ t) s ((k, x, e, h, c, i), good) =
      let y = pump_async_stream io_size send_len x in
      let s1 : System = record s { streams = set s.streams k y } in
      let place = pump_place io_size send_len x in
      let keep = Keeps-set s.streams k x y h place.0 place.1 in
      subst (PumpsAll io_size send_len s) (sym (pump_step io_size send_len id k ref t x s e h)) (
        PumpsAll-trans s s1 (pump_streams io_size send_len t s1) refl refl keep
          (Pumped-set s.streams k x h)
          (pump_streams-pumps conn t s1 (GoodStreams-Keeps s.streams s1.streams conn t keep good)))

  pump_all-pumps :
      (m : Table ℕ Streams) (s : System)
      → AllGood s.streams m
      → PumpsAll io_size send_len s (pump_all io_size send_len m s)
  unfolding pump_all
  pump_all-pumps [] s good = (s, refl, refl, refl, Keeps-refl s.streams, λ k x h. (x, h, inl refl))
  pump_all-pumps ((conn, t) ∷ m) s good =
      let (u, q, cu, eu, ku, first) = pump_streams-pumps conn t s good.0 in
      subst (PumpsAll io_size send_len s) (sym (ap (λ z. z >>= pump_all io_size send_len m) q)) (
        PumpsAll-trans s u (pump_all io_size send_len m u) cu eu ku first
          (pump_all-pumps m u (AllGood-Keeps s.streams u.streams m ku good.1)))

-- A write event of a connection without a synchronous stream pumps every pending stream.
pub handle_write-pumps :
    (env : Env) (conn : Connection) (c : RemoteContext) (s : System)
    → conn.fn_data ≡ context c
    → c.stream ≡ none
    → Inv s
    → (u : System) × (handle_write env conn s ≡ ok (record conn { fn_data = context c }, u))
      × (u.calls ≡ s.calls)
      × (u.endpoint ≡ s.endpoint)
      × ((k : ℕ) (x : AsyncStream)
          → get_elem? s.streams k ≡ some x
          → (y : AsyncStream) × (get_elem? u.streams k ≡ some y)
            × Pumped env.io_size (env.send_len_after conn.send_len []) x y)
unfolding handle_write pump_stream
handle_write-pumps env conn c s held idle v =
    let (u, q, cu, eu, _, pumped) =
      pump_all-pumps env.io_size (env.send_len_after conn.send_len []) s.pending_streams
        (record s { calls = s.calls ++ [] })
        (All-of_find (λ (e : ℕ × Streams). GoodStreams s.streams e.0 e.1) s.pending_streams
          v.streams_keys (λ o t e. good_streams o t s e v)) in
    (u, rw (context_of_lem conn c held) (rw idle (rw q)), cu ∙ append-nil s.calls, eu, pumped)
