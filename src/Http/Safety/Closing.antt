-- ===== src/Http/Safety/Closing.antt =====
-- What the two halves of the closing of a connection leave: of its responses, and of its streams.
use mongoose_cpp.Prelude.{
  ℕ, ◌==◌, ==_iff, ◌≡◌, refl, sym, ◌∙◌, ap, subst, List, [], ◌∷◌, Option, none, some, arith,
  get_elem?, set, All, get_elem?-lt, get_elem?-set_self, get_elem?-set_ne, Bool-cases, Option-cases,
  inl, inr, if◌then◌else◌,
}
use mongoose_cpp.Table.{Table, find, erase, IsUnique}
use mongoose_cpp.Table.Keys.{nat_key}
use mongoose_cpp.Mongoose.{ok, ◌>>=◌}
use mongoose_cpp.Http.AsyncStream
use mongoose_cpp.Http.AsyncStream.{AsyncStream}
use mongoose_cpp.Http.AsyncStream.State.{StreamState}
use mongoose_cpp.Http.Endpoint.State.{System, Streams, put_stream}
use mongoose_cpp.Http.Endpoint.Events.{fail_streams, close_responses, close_streams}
use mongoose_cpp.Http.Endpoint.Wakeup.{inner}
use mongoose_cpp.Http.Endpoint.Wakeup.Lookup.{find_at, find_in}
use mongoose_cpp.Http.Safety.Maps.{find_at-erase_outer}
use mongoose_cpp.Http.Safety.Inv.{Inv}
use mongoose_cpp.Http.Safety.Pointers.{deref_stream_lem, good_responses, good_streams}
use mongoose_cpp.Http.Safety.Loops.{GoodStreams, GoodStreams-Keeps}
use mongoose_cpp.Http.Safety.Valid.{Keeps-set}
use mongoose_cpp.Http.Safety.Close.{FailedAt, fail_responses-Inv, erase_responses-Inv}

-- The stream at a place, or the null pointer, has failed.
abbrev pub StreamFailedAt : List AsyncStream → Option ℕ → Type 0
StreamFailedAt xs ref =
    (k : ℕ) × (x : AsyncStream) × (ref ≡ some k)
    × (get_elem? xs k ≡ some x)
    × (x.state ≡ StreamState.failed)

-- A connection without an entry has nothing pending.
find_at-absent {ℓ} :
    {V : Type ℓ} (conn c id : ℕ) (m : Table ℕ (Table ℕ V))
    → find nat_key conn m ≡ none
    → find_at c id m ≡ (if conn == c then none else find_at c id m)
find_at-absent conn c id m e = elim (Bool-cases (conn == c)) [
  | inl p ↦
      let gone : find_at c id m ≡ none =
        subst (λ z. find_at z id m ≡ none) ((==_iff conn c).0 p) (ap (find_in id) e) in
      rw p gone
  | inr p ↦ rw p
]

stream_failed_set :
    (xs : List AsyncStream) (k : ℕ) (ref : Option ℕ) (x : AsyncStream)
    → get_elem? xs k ≡ some x
    → StreamFailedAt xs ref
    → StreamFailedAt (set xs k (AsyncStream.mark_failed x)) ref
unfolding AsyncStream.mark_failed
stream_failed_set xs k ref x h (j, y, e, hy, f) = elim (Bool-cases (k == j)) [
  | inl p ↦
      let same : k ≡ j = (==_iff k j).0 p in
      (
        k,
        _,
        e ∙ ap some (sym same),
        get_elem?-set_self xs k (AsyncStream.mark_failed x) (get_elem?-lt xs k h),
        refl,
      )
  | inr p ↦ (j, y, e, get_elem?-set_ne xs _ (λ q. ground arith) ∙ hy, f)
]

-- One pass of the loop.
fail_streams_step :
    (id k : ℕ) (ref : Option ℕ) (t : Streams) (x : AsyncStream) (s : System)
    → ref ≡ some k
    → get_elem? s.streams k ≡ some x
    → fail_streams ((id, ref) ∷ t) s
      ≡ fail_streams t (record s { streams = set s.streams k (AsyncStream.mark_failed x) })
unfolding fail_streams put_stream
fail_streams_step id k ref t x s e h =
    ap (λ m. m >>= λ y. fail_streams t (put_stream s ref (AsyncStream.mark_failed y)))
      (deref_stream_lem s ref k x e h)
    ∙ ap (λ z. fail_streams t (put_stream s z (AsyncStream.mark_failed x))) e

fail_streams-failed :
    (conn : ℕ) (t : Streams) (s : System)
    → GoodStreams s.streams conn t
    → (u : System) × (fail_streams t s ≡ ok u)
      × All (λ (e : ℕ × Option ℕ). StreamFailedAt u.streams e.1) t
      × ((ref : Option ℕ) → StreamFailedAt s.streams ref → StreamFailedAt u.streams ref)
      × (u.responses ≡ s.responses)
      × (u.endpoint ≡ s.endpoint)
unfolding fail_streams AsyncStream.mark_failed
fail_streams-failed conn [] s good = (s, refl, tt, λ ref f. f, refl, refl)
fail_streams-failed conn ((id, ref) ∷ t) s ((k, x, e, h, c, i), good) =
    let failed = AsyncStream.mark_failed x in
    let s1 : System = record s { streams = set s.streams k failed } in
    let (u, q, all, old, rs, ep) = fail_streams-failed conn t s1 (
      GoodStreams-Keeps s.streams s1.streams conn t (Keeps-set s.streams k x failed h refl refl)
        good) in
    (
      u,
      fail_streams_step id k ref t x s e h ∙ q,
      (
        old ref (
          k,
          failed,
          e,
          get_elem?-set_self s.streams k failed (get_elem?-lt s.streams k h),
          refl,
        ),
        all,
      ),
      λ z f. old z (stream_failed_set s.streams k z x h f),
      rs,
      ep,
    )

-- The responses of a closed connection.
pub responses_closed :
    (conn : ℕ) (s : System)
    → Inv s
    → (u : System) × (close_responses conn s ≡ ok u)
      × Inv u
      × All (λ (e : ℕ × ℕ). FailedAt u.responses e.1) (inner conn s.pending_responses)
      × ((c id : ℕ)
          → find_at c id u.pending_responses
            ≡ (if conn == c then none else find_at c id s.pending_responses))
      × (u.pending_streams ≡ s.pending_streams)
      × ((ref : ℕ) → FailedAt s.responses ref → FailedAt u.responses ref)
      × (u.streams ≡ s.streams)
unfolding close_responses
responses_closed conn s v = elim (Option-cases (find nat_key conn s.pending_responses)) [
  | inl e ↦ (
    s,
    rw (e, close_responses),
    v,
    rw (e, inner) tt,
    λ c id. find_at-absent conn c id s.pending_responses e,
    refl,
    λ ref f. f,
    refl,
  )
  | inr (t, e) ↦
      let (u, q, w, same, failed, old, streams) =
        fail_responses-Inv conn t s (good_responses conn t s e v) v in
      (
        _,
        rw (e, close_responses) (rw q),
        erase_responses-Inv conn u w,
        rw (e, inner) failed,
        λ c id.
            find_at-erase_outer conn c id u.pending_responses w.responses_keys
            ∙ ap (λ z. if conn == c then none else find_at c id z.pending_responses) same,
        ap (λ z. z.pending_streams) same,
        old,
        streams,
      )
]

-- The streams of a closed connection.
pub streams_closed :
    (conn : ℕ) (s : System)
    → Inv s
    → (u : System) × (close_streams conn s ≡ ok u)
      × All (λ (e : ℕ × Option ℕ). StreamFailedAt u.streams e.1) (inner conn s.pending_streams)
      × ((c id : ℕ)
          → find_at c id u.pending_streams
            ≡ (if conn == c then none else find_at c id s.pending_streams))
      × (u.responses ≡ s.responses)
      × (u.pending_responses ≡ s.pending_responses)
      × ((ref : Option ℕ) → StreamFailedAt s.streams ref → StreamFailedAt u.streams ref)
unfolding close_streams
streams_closed conn s v = elim (Option-cases (find nat_key conn s.pending_streams)) [
  | inl e ↦ (
    s,
    rw (e, close_streams),
    rw (e, inner) tt,
    λ c id. find_at-absent conn c id s.pending_streams e,
    refl,
    refl,
    λ ref f. f,
  )
  | inr (t, e) ↦
      let (u, q, failed, old, rs, same) =
        fail_streams-failed conn t s (good_streams conn t s e v) in
      (
        record u {
          endpoint = record u.endpoint { pending_streams = erase nat_key conn u.pending_streams };
        },
        rw (e, close_streams) (rw q),
        rw (e, inner) failed,
        λ c id.
            find_at-erase_outer conn c id u.pending_streams
              (subst (λ z. IsUnique nat_key z.pending_streams) (sym same) v.streams_keys)
            ∙ ap (λ z. if conn == c then none else find_at c id z.pending_streams) same,
        rs,
        ap (λ z. z.pending_responses) same,
        old,
      )
]
