-- ===== src/Http/Safety/Backpressure.antt =====
-- What a write event of one connection does to the pending streams of all.
use mongoose_cpp.Prelude.{
  ℕ, ◌<◌, ◌==◌, ==_iff, ◌≡◌, refl, sym, ◌∙◌, ap, subst, false, List, [], ◌∷◌, ◌++◌, Option, some,
  arith, get_elem?, set, leb, get_elem?-lt, get_elem?-set_self, get_elem?-set_ne, Bool-cases, inl,
  inr,
}
use mongoose_cpp.Table.{Table, find}
use mongoose_cpp.Table.Keys.{nat_key}
use mongoose_cpp.Mongoose.{Outcome, ok, ◌>>=◌}
use mongoose_cpp.Http.AsyncStream
use mongoose_cpp.Http.AsyncStream.{AsyncStream}
use mongoose_cpp.Http.AsyncStream.State.{StreamState}
use mongoose_cpp.Http.Connection.{
  Connection, RemoteContext, context, pump_async_stream, pump_stream,
}
use mongoose_cpp.Http.Endpoint.State.{System, Env, Streams}
use mongoose_cpp.Http.Endpoint.Events.{pump_streams, pump_all, handle_write}
use mongoose_cpp.Http.Endpoint.Wakeup.Lookup.{find_at}
use mongoose_cpp.Http.Safety.Inv.{Inv}
use mongoose_cpp.Http.Safety.Pointers.{good_streams}
use mongoose_cpp.Http.Safety.Loops.{
  GoodStreams, GoodStreams-Keeps, pump_place, pump_step, AllGood, AllGood-Keeps,
}
use mongoose_cpp.Http.Safety.Maps.{All-of_find}
use mongoose_cpp.Http.Safety.Message.{context_of_lem}
use mongoose_cpp.Http.Safety.Valid.{Keeps, Keeps-set, Keeps-refl, Keeps-trans}

-- The states of a stream that a write event leaves or makes empty.
abbrev pub IsFlushed : StreamState → Type 0
IsFlushed StreamState.flush = Unit
IsFlushed StreamState.empty = Unit
IsFlushed _ = ⊥

-- The pointer leads to a stream in such a state.
abbrev pub StreamAt : (StreamState → Type 0) → List AsyncStream → Option ℕ → Type 0
StreamAt Q xs ref =
    (k : ℕ) × (x : AsyncStream) × (ref ≡ some k) × (get_elem? xs k ≡ some x) × Q x.state

StreamAt-set :
    (Q : StreamState → Type 0) (xs : List AsyncStream) (k : ℕ) (ref : Option ℕ) (x y : AsyncStream)
    → get_elem? xs k ≡ some x
    → (Q x.state → Q y.state)
    → StreamAt Q xs ref
    → StreamAt Q (set xs k y) ref
StreamAt-set Q xs k ref x y h keep (j, z, e, hz, q) = elim (Bool-cases (k == j)) [
  | inl p ↦
      let same : k ≡ j = (==_iff k j).0 p in
      let one : z ≡ x = cc (h, hz, same) in
      (
        k,
        y,
        e ∙ ap some (sym same),
        get_elem?-set_self xs k y (get_elem?-lt xs k h),
        keep (subst (λ w. Q w.state) one q),
      )
  | inr p ↦ (j, z, e, get_elem?-set_ne xs y (λ r. ground arith) ∙ hz, q)
]

-- With room in the buffer, a pump leaves a flushed stream empty.
flushed_empties :
    (io_size send_len : ℕ) (x : AsyncStream)
    → send_len < io_size
    → IsFlushed x.state
    → (pump_async_stream io_size send_len x).state ≡ StreamState.empty
unfolding pump_async_stream AsyncStream.mark_empty
flushed_empties io_size send_len x h e = go x.state refl e
  where
    full : leb io_size send_len ≡ false
    full = ground arith

    go :
        (st : StreamState)
        → x.state ≡ st
        → IsFlushed st
        → (pump_async_stream io_size send_len x).state ≡ StreamState.empty
    go StreamState.flush q f = rw q (rw full)
    go StreamState.empty q f = rw q
    go StreamState.start q f = elim f [ ]
    go StreamState.has_data q f = elim f [ ]
    go StreamState.close q f = elim f [ ]
    go StreamState.completed q f = elim f [ ]
    go StreamState.failed q f = elim f [ ]

abbrev pub IsEmpty : StreamState → Type 0
IsEmpty st = st ≡ StreamState.empty

empty-IsFlushed : (st : StreamState) → IsEmpty st → IsFlushed st
empty-IsFlushed st e = subst IsFlushed (sym e) tt

-- The streams of a loop that were flushed are empty behind it, and so is any that was empty.
abbrev Frees : (Option ℕ → Type 0) → System → Outcome System → Type 0
Frees In s m =
    (u : System) × (m ≡ ok u)
    × Keeps s.streams u.streams
    × ((ref : Option ℕ)
        → In ref
        → StreamAt IsFlushed s.streams ref
        → StreamAt IsEmpty u.streams ref)
    × ((ref : Option ℕ) → StreamAt IsFlushed s.streams ref → StreamAt IsFlushed u.streams ref)
    × ((ref : Option ℕ) → StreamAt IsEmpty s.streams ref → StreamAt IsEmpty u.streams ref)

-- The pointers of one connection's streams, and of those of all.
abbrev Held : Streams → Option ℕ → Type 0
Held t ref = (id : ℕ) × (find nat_key id t ≡ some ref)

abbrev HeldAt : Table ℕ Streams → Option ℕ → Type 0
HeldAt m ref = (conn : ℕ) × (id : ℕ) × (find_at conn id m ≡ some ref)

module _ (io_size send_len : ℕ) (room : send_len < io_size) where
  freed :
      (x : AsyncStream) → IsFlushed x.state → IsEmpty (pump_async_stream io_size send_len x).state
  freed x f = flushed_empties io_size send_len x room f

  IsFlushed-here :
      (xs : List AsyncStream) (k : ℕ) (ref : Option ℕ) (x : AsyncStream)
      → ref ≡ some k
      → get_elem? xs k ≡ some x
      → StreamAt IsFlushed xs ref
      → IsFlushed x.state
  IsFlushed-here xs k ref x e h (j, w, ew, hw, f) =
      let same : j ≡ k = cc (e, ew) in
      let one : w ≡ x = cc (h, hw, same) in subst (λ v. IsFlushed v.state) one f

  pump_streams-Frees :
      (conn : ℕ) (t : Streams) (s : System)
      → GoodStreams s.streams conn t
      → Frees (Held t) s (pump_streams io_size send_len t s)
  unfolding pump_streams find
  pump_streams-Frees conn [] s good =
      (s, refl, Keeps-refl s.streams, λ ref m f. cc m.1, λ ref f. f, λ ref f. f)
  pump_streams-Frees conn ((id, ref) ∷ t) s ((k, x, e, h, c, i), good) =
      let y = pump_async_stream io_size send_len x in
      let s1 : System = record s { streams = set s.streams k y } in
      let place = pump_place io_size send_len x in
      let keep = Keeps-set s.streams k x y h place.0 place.1 in
      let (u, q, ku, here, flushed, emptied) =
        pump_streams-Frees conn t s1 (GoodStreams-Keeps s.streams s1.streams conn t keep good) in
      let flush1 : (z : Option ℕ)
          → StreamAt IsFlushed s.streams z
          → StreamAt IsFlushed s1.streams z =
        λ z f.
          StreamAt-set IsFlushed s.streams k z x y h (λ g. empty-IsFlushed y.state (freed x g)) f in
      (
        u,
        pump_step io_size send_len id k ref t x s e h ∙ q,
        Keeps-trans s.streams s1.streams u.streams keep ku,
        λ z m f. elim (Bool-cases (id == m.0)) [
          | inl p ↦
              let same : ref ≡ z = cc (rw p at m.1) in
              emptied z (
                k,
                y,
                sym same ∙ e,
                get_elem?-set_self s.streams k y (get_elem?-lt s.streams k h),
                freed x (IsFlushed-here s.streams k z x (sym same ∙ e) h f),
              )
          | inr p ↦ here z (m.0, rw p at m.1) (flush1 z f)
        ],
        λ z f. flushed z (flush1 z f),
        λ z f.
            emptied z (
              StreamAt-set IsEmpty s.streams k z x y h (λ g. freed x (empty-IsFlushed x.state g))
                f),
      )

  pump_all-Frees :
      (m : Table ℕ Streams) (s : System)
      → AllGood s.streams m
      → Frees (HeldAt m) s (pump_all io_size send_len m s)
  unfolding pump_all find
  pump_all-Frees [] s good =
      (s, refl, Keeps-refl s.streams, λ ref h f. cc h.2, λ ref f. f, λ ref f. f)
  pump_all-Frees ((conn, t) ∷ m) s good =
      let (u, q, ku, here, flushed, emptied) = pump_streams-Frees conn t s good.0 in
      let (w, p, kw, rest, still, left) =
        pump_all-Frees m u (AllGood-Keeps s.streams u.streams m ku good.1) in
      (
        w,
        ap (λ z. z >>= pump_all io_size send_len m) q ∙ p,
        Keeps-trans s.streams u.streams w.streams ku kw,
        λ ref h f. elim (Bool-cases (conn == h.0)) [
          | inl r ↦ left ref (here ref (h.1, rw r at h.2) f)
          | inr r ↦ rest ref (h.0, h.1, rw r at h.2) (flushed ref f)
        ],
        λ ref f. still ref (flushed ref f),
        λ ref f. left ref (emptied ref f),
      )

-- Where the invariant holds, a write event of a connection that has its context, and whose buffer then
-- has room, leaves every pending stream that was flushing or empty empty, that of any other
-- connection too, whatever is in the buffer of that one.
pub write_empties_all :
    (env : Env) (conn : Connection) (c : RemoteContext) (s : System) (other id : ℕ) (ref : Option ℕ)
    → conn.fn_data ≡ context c
    → Inv s
    → env.send_len_after conn.send_len (pump_stream env.io_size conn.id conn.send_len c).0
      < env.io_size
    → find_at other id s.pending_streams ≡ some ref
    → StreamAt IsFlushed s.streams ref
    → (r : Connection × System) × (handle_write env conn s ≡ ok r)
      × StreamAt IsEmpty r.1.streams ref
unfolding handle_write
write_empties_all env conn c s other id ref held v room h f =
    let pumped = pump_stream env.io_size conn.id conn.send_len c in
    let grown = env.send_len_after conn.send_len pumped.0 in
    let (u, q, _, here, _, _) =
      pump_all-Frees env.io_size grown room s.pending_streams
        (record s { calls = s.calls ++ pumped.0 })
        (All-of_find (λ (e : ℕ × Streams). GoodStreams s.streams e.0 e.1) s.pending_streams
          v.streams_keys (λ o t e. good_streams o t s e v)) in
    (
      (record conn { fn_data = context pumped.1 }, u),
      rw (context_of_lem conn c held) (rw q),
      here ref (other, id, h) f,
    )
