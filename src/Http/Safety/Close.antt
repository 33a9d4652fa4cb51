-- ===== src/Http/Safety/Close.antt =====
-- The closing of a connection.
use mongoose_cpp.Prelude.{
  ℕ, ◌==◌, ==_iff, ◌≡◌, refl, ◌∙◌, subst, true, false, List, [], ◌∷◌, some, arith, get_elem?, set,
  All, get_elem?-lt, get_elem?-set_self, get_elem?-set_ne, ◌⊎◌, Bool-cases, Option-cases, inl, inr,
}
use mongoose_cpp.Table.{find, erase}
use mongoose_cpp.Table.Keys.{nat_key}
use mongoose_cpp.Table.Laws.{erase-IsUnique}
use mongoose_cpp.Mongoose.{Outcome, ok}
use mongoose_cpp.Http.AsyncResponse
use mongoose_cpp.Http.AsyncResponse.{AsyncResponse}
use mongoose_cpp.Http.AsyncStream.{AsyncStream}
use mongoose_cpp.Http.Connection.{Connection, FnData, RemoteContext, context}
use mongoose_cpp.Http.Endpoint.State.{System, Responses, put_response}
use mongoose_cpp.Http.Endpoint.Events.{fail_responses, close_responses, close_streams}
use mongoose_cpp.Http.Safety.Valid.{ValidStream, ValidResponse, Keeps-refl, ValidResponse-set}
use mongoose_cpp.Http.Safety.Maps.{InnerUnique-erase, AllAt-erase_outer}
use mongoose_cpp.Http.Safety.Inv.{Inv, Inv-store}
use mongoose_cpp.Http.Safety.Serving.{Safe}
use mongoose_cpp.Http.Safety.Pointers.{
  deref_response_lem, GoodResponse, good_responses, good_streams,
}
use mongoose_cpp.Http.Safety.Loops.{fail_streams-Inv}
use mongoose_cpp.Http.Endpoint.Events.{handle_close, release_context}
use mongoose_cpp.Http.Endpoint.Message.{context_of}
use mongoose_cpp.Http.AsyncResponse.State.{ResponseState}

-- The response at a place has failed.
abbrev pub FailedAt : List AsyncResponse → ℕ → Type 0
FailedAt rs ref =
    (r : AsyncResponse) × (get_elem? rs ref ≡ some r) × (r.state ≡ ResponseState.failed)

-- The loop over the responses returns: the maps and the streams are as they were, every pointer is
-- still good, every response of the loop has failed, and so have those that had before.
abbrev FailLoop : Responses → System → Outcome System → Type 0
FailLoop t s m =
    (u : System) × (m ≡ ok u)
    × Inv u
    × (u.endpoint ≡ s.endpoint)
    × All (λ (e : ℕ × ℕ). FailedAt u.responses e.1) t
    × ((ref : ℕ) → FailedAt s.responses ref → FailedAt u.responses ref)
    × (u.streams ≡ s.streams)

failed_set :
    (rs : List AsyncResponse) (k ref : ℕ) (r : AsyncResponse)
    → get_elem? rs k ≡ some r
    → (FailedAt rs ref ⊎ (k ≡ ref))
    → FailedAt (set rs k (AsyncResponse.mark_failed r)) ref
unfolding AsyncResponse.mark_failed
failed_set rs k ref r h (inl (q, hq, fq)) = elim (Bool-cases (k == ref)) [
  | inl p ↦ (
    _,
    subst
        (λ z.
          get_elem? (set rs k (AsyncResponse.mark_failed r)) z ≡ some (AsyncResponse.mark_failed r))
        ((==_iff k ref).0 p) (get_elem?-set_self rs k _ (get_elem?-lt rs k h)),
    refl,
  )
  | inr p ↦ (q, get_elem?-set_ne rs _ (λ e. ground arith) ∙ hq, fq)
]
failed_set rs k ref r h (inr e) = (
  _,
  subst
      (λ z.
        get_elem? (set rs k (AsyncResponse.mark_failed r)) z ≡ some (AsyncResponse.mark_failed r))
      e (get_elem?-set_self rs k _ (get_elem?-lt rs k h)),
  refl,
)

GoodResponses-set :
    (rs : List AsyncResponse) (xs : List AsyncStream) (conn k : ℕ) (r : AsyncResponse)
    (t : Responses)
    → get_elem? rs k ≡ some r
    → All (GoodResponse rs xs conn) t
    → All (GoodResponse (set rs k (AsyncResponse.mark_failed r)) xs conn) t
unfolding AsyncResponse.mark_failed
GoodResponses-set rs xs conn k r [] h good = tt
GoodResponses-set rs xs conn k r ((id, ref) ∷ t) h good = (
  ValidResponse-set rs xs k r (AsyncResponse.mark_failed r) h refl refl (λ _ st. cc) ref conn id
      good.0,
  GoodResponses-set rs xs conn k r t h good.1,
)

fail_one :
    (s : System) (ref : ℕ) (r : AsyncResponse)
    → get_elem? s.responses ref ≡ some r
    → Inv s
    → Inv (put_response s ref (AsyncResponse.mark_failed r))
unfolding put_response AsyncResponse.mark_failed
fail_one s ref r h v = Inv-store s _ s.streams s.calls s.signals v (Keeps-refl s.streams) (
    ValidResponse-set s.responses s.streams ref r (AsyncResponse.mark_failed r) h refl refl
      (λ _ st. cc))

pub fail_responses-Inv :
    (conn : ℕ) (t : Responses) (s : System)
    → All (GoodResponse s.responses s.streams conn) t
    → Inv s
    → FailLoop t s (fail_responses t s)
unfolding fail_responses put_response
fail_responses-Inv conn [] s good v = (s, refl, v, refl, tt, λ ref f. f, refl)
fail_responses-Inv conn ((id, ref) ∷ t) s ((r, h, c, i, streaming), good) v =
    let s1 = put_response s ref (AsyncResponse.mark_failed r) in
    let (u, q, w, same, failed, old, streams) =
      fail_responses-Inv conn t s1 (GoodResponses-set s.responses s.streams conn ref r t h good)
        (fail_one s ref r h v) in
    (
      u,
      rw (deref_response_lem s ref r h) q,
      w,
      same,
      (old ref (failed_set s.responses ref ref r h (inr refl)), failed),
      λ k f. old k (failed_set s.responses ref k r h (inl f)),
      streams,
    )

pub erase_responses-Inv :
    (conn : ℕ) (s : System)
    → Inv s
    → Inv (record s {
      endpoint = record s.endpoint { pending_responses = erase nat_key conn s.pending_responses };
    })
erase_responses-Inv conn s v = record {
  responses_keys = erase-IsUnique nat_key conn s.pending_responses v.responses_keys;
  streams_keys = v.streams_keys;
  responses_unique = InnerUnique-erase conn s.pending_responses v.responses_keys v.responses_unique;
  streams_unique = v.streams_unique;
  responses_valid =
      AllAt-erase_outer (λ c i ref. ValidResponse s.responses s.streams ref c i) conn
        s.pending_responses v.responses_keys v.responses_valid;
  streams_valid = v.streams_valid;
  groups_counted = v.groups_counted;
}

erase_streams-Inv :
    (conn : ℕ) (s : System)
    → Inv s
    → Inv (record s {
      endpoint = record s.endpoint { pending_streams = erase nat_key conn s.pending_streams };
    })
erase_streams-Inv conn s v = record {
  responses_keys = v.responses_keys;
  streams_keys = erase-IsUnique nat_key conn s.pending_streams v.streams_keys;
  responses_unique = v.responses_unique;
  streams_unique = InnerUnique-erase conn s.pending_streams v.streams_keys v.streams_unique;
  responses_valid = v.responses_valid;
  streams_valid =
      AllAt-erase_outer (λ c i ref. ValidStream s.streams ref c i) conn s.pending_streams
        v.streams_keys v.streams_valid;
  groups_counted = v.groups_counted;
}

pub close_responses-Inv : (conn : ℕ) (s : System) → Inv s → Safe (close_responses conn s)
unfolding close_responses
close_responses-Inv conn s v = elim (Option-cases (find nat_key conn s.pending_responses)) [
  | inl e ↦ (s, rw (e, close_responses), v)
  | inr (t, e) ↦
      let (u, q, w, _, _, _, _) = fail_responses-Inv conn t s (good_responses conn t s e v) v in
      (_, rw (e, close_responses) (rw q), erase_responses-Inv conn u w)
]

pub close_streams-Inv : (conn : ℕ) (s : System) → Inv s → Safe (close_streams conn s)
unfolding close_streams
close_streams-Inv conn s v = elim (Option-cases (find nat_key conn s.pending_streams)) [
  | inl e ↦ (s, rw (e, close_streams), v)
  | inr (t, e) ↦
      let (u, q, w, _, _, _) = fail_streams-Inv conn t s (good_streams conn t s e v) v in
      (_, rw (e, close_streams) (rw q), erase_streams-Inv conn u w)
]

-- A connection that is marked as having a context has one.
abbrev pub IsMarkedRight : Connection → Type 0
IsMarkedRight conn = (conn.tag == b'R') ≡ true → (c : RemoteContext) × (conn.fn_data ≡ context c)

pub release_lem :
    (conn : Connection)
    → IsMarkedRight conn
    → (closed : Connection) × (release_context conn ≡ ok closed) × ((closed.tag == b'R') ≡ false)
unfolding release_context context_of
release_lem conn marked = elim (Bool-cases (conn.tag == b'R')) [
  | inl p ↦
      let (c, e) = marked p in
      (record conn { fn_data = FnData.null; tag = 0 }, rw p (rw (e, context_of)), refl)
  | inr p ↦ (conn, rw p, p)
]

-- A close event is served, and leaves a connection that is not marked as having a context.
pub handle_close-Inv :
    (conn : Connection) (s : System)
    → IsMarkedRight conn
    → Inv s
    → (r : Connection × System) × (handle_close conn s ≡ ok r)
      × ((r.0.tag == b'R') ≡ false)
      × Inv r.1
unfolding handle_close
handle_close-Inv conn s marked v =
    let (t, e, w) = close_responses-Inv conn.id s v in
    let (u, q, x) = close_streams-Inv conn.id t w in
    let (closed, p, unmarked) = release_lem conn marked in
    ((closed, u), rw e (rw q (rw p)), unmarked, x)
