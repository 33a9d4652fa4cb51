-- ===== src/Http/Safety/Wakeup.antt =====
-- A wake-up never meets a bad pointer, and keeps the invariant.
use mongoose_cpp.Prelude.{
  ℕ, ◌==◌, ◌&&◌, ◌≡◌, ◌≢◌, refl, ◌∙◌, ap, sym, Bool, true, false, List, Option, some, arith,
  get_elem?, set, get_elem?-set_ne, Bool-cases, Option-cases, inl, inr,
}
use mongoose_cpp.Table.{find, assign, erase}
use mongoose_cpp.Table.Keys.{nat_key}
use mongoose_cpp.Table.Laws.{assign-IsUnique, erase-IsUnique}
use mongoose_cpp.Mongoose.{ok, ◌>>=◌}
use mongoose_cpp.Http.AsyncStream.{AsyncStream}
use mongoose_cpp.Http.AsyncResponse
use mongoose_cpp.Http.AsyncResponse.{AsyncResponse}
use mongoose_cpp.Http.AsyncResponse.State.{is_streaming}
use mongoose_cpp.Http.Endpoint.State.{System, Responses, emit, put_response}
use mongoose_cpp.Http.Endpoint.Wakeup.{
  handle_response, handle_wakeup, after_stream, after_response, promote_stream, deliver_response,
  assign_at,
}
use mongoose_cpp.Http.Endpoint.Wakeup.Lookup.{find_at, find_at-erase_at}
use mongoose_cpp.Http.Endpoint.Wakeup.Answers.{handle_response_absent, handle_response_found}
use mongoose_cpp.Http.Endpoint.Wakeup.Streaming.{handle_response_streaming, find_in-some}
use mongoose_cpp.Http.Safety.Valid.{ValidStream, ValidResponse}
use mongoose_cpp.Http.Safety.Maps.{
  InnerUnique-assign, InnerUnique-assign_at, AllAt-assign_at, AllAt-erased,
}
use mongoose_cpp.Http.Safety.Inv.{Inv}
use mongoose_cpp.Http.Safety.Serving.{Safe, SafeAnswer, emit-Inv, handle_stream-Inv}

-- A response that is replaced is a bad pointer at most where it was pending.
valid_elsewhere :
    (rs : List AsyncResponse) (xs : List AsyncStream) (k conn id : ℕ) (r r' : AsyncResponse)
    → get_elem? rs k ≡ some r
    → r.conn ≡ conn
    → r.id ≡ id
    → (c i ref : ℕ) → (conn == c && id == i) ≡ false
    → ValidResponse rs xs ref c i
    → ValidResponse (set rs k r') xs ref c i
valid_elsewhere rs xs k conn id r r' h hc hi c i ref other (q, hq, cq, iq, streaming) =
    (q, get_elem?-set_ne rs r' differs ∙ hq, cq, iq, streaming)
  where
    differs : k ≢ ref
    differs e =
        let same : r ≡ q = cc (h, hq, e) in
        let a : conn ≡ c = sym hc ∙ ap (λ z. z.conn) same ∙ cq in
        let b : id ≡ i = sym hi ∙ ap (λ z. z.id) same ∙ iq in ground arith

-- Taking a response off the pending ones, and replacing it.
unpend-Inv :
    (conn id ref : ℕ) (responses : Responses) (r r' : AsyncResponse) (s : System)
    → find nat_key conn s.pending_responses ≡ some responses
    → get_elem? s.responses ref ≡ some r
    → r.conn ≡ conn
    → r.id ≡ id
    → Inv s
    → Inv (record s {
      endpoint = record s.endpoint {
        pending_responses = assign nat_key conn (erase nat_key id responses) s.pending_responses;
      };
      responses = set s.responses ref r';
    })
unpend-Inv conn id ref responses r r' s e h hc hi v =
    let unique = v.responses_unique conn responses e in
    record {
      responses_keys = assign-IsUnique nat_key conn _ s.pending_responses v.responses_keys;
      streams_keys = v.streams_keys;
      responses_unique =
          InnerUnique-assign conn _ s.pending_responses (erase-IsUnique nat_key id responses unique)
            v.responses_unique;
      streams_unique = v.streams_unique;
      responses_valid =
          AllAt-erased (λ c i x. ValidResponse s.responses s.streams x c i)
            (λ c i x. ValidResponse (set s.responses ref r') s.streams x c i) conn id
            s.pending_responses _
            (λ c i. find_at-erase_at conn id c i responses s.pending_responses e unique)
            (λ c i x other.
              valid_elsewhere s.responses s.streams ref conn id r r' h hc hi c i x other)
            v.responses_valid;
      streams_valid = v.streams_valid;
      groups_counted = v.groups_counted;
    }

-- Adding a good pointer to the pending streams.
pend_stream-Inv :
    (conn id : ℕ) (ref : Option ℕ) (s : System)
    → ValidStream s.streams ref conn id
    → Inv s
    → Inv (record s {
      endpoint = record s.endpoint { pending_streams = assign_at conn id ref s.pending_streams };
    })
pend_stream-Inv conn id ref s good v = record {
  responses_keys = v.responses_keys;
  streams_keys = assign-IsUnique nat_key conn _ s.pending_streams v.streams_keys;
  responses_unique = v.responses_unique;
  streams_unique = InnerUnique-assign_at conn id ref s.pending_streams v.streams_unique;
  responses_valid = v.responses_valid;
  streams_valid =
      AllAt-assign_at (λ c i x. ValidStream s.streams x c i) conn id ref s.pending_streams good
        v.streams_valid;
  groups_counted = v.groups_counted;
}

move_place :
    (xs : List AsyncStream) (ref : Option ℕ) (a b conn id : ℕ)
    → a ≡ conn
    → b ≡ id
    → ValidStream xs ref a b
    → ValidStream xs ref conn id
move_place xs ref a b conn id p q (k, x, e, h, c, i) = (k, x, e, h, c ∙ p, i ∙ q)

promote-Inv :
    (conn id ref : ℕ) (responses : Responses) (r : AsyncResponse) (s : System)
    → find nat_key conn s.pending_responses ≡ some responses
    → get_elem? s.responses ref ≡ some r
    → r.conn ≡ conn
    → r.id ≡ id
    → ValidStream s.streams r.stream r.conn r.id
    → Inv s
    → Inv (promote_stream conn id ref responses r s)
unfolding promote_stream AsyncResponse.get_stream put_response
promote-Inv conn id ref responses r s e h hc hi good v =
    pend_stream-Inv conn id r.stream _
      (move_place s.streams r.stream r.conn r.id conn id hc hi good)
      (unpend-Inv conn id ref responses r _ s e h hc hi v)

deliver-Inv :
    (conn id ref : ℕ) (responses : Responses) (r : AsyncResponse) (s : System)
    → find nat_key conn s.pending_responses ≡ some responses
    → get_elem? s.responses ref ≡ some r
    → r.conn ≡ conn
    → r.id ≡ id
    → Inv s
    → Inv (deliver_response conn id ref responses r s)
unfolding deliver_response put_response emit
deliver-Inv conn id ref responses r s e h hc hi v =
    unpend-Inv conn id ref responses r _ (emit s _) e h hc hi (emit-Inv s _ v)

handle_response-Inv : (conn id : ℕ) (s : System) → Inv s → SafeAnswer (handle_response conn id s)
handle_response-Inv conn id s v = elim (Option-cases (find_at conn id s.pending_responses)) [
  | inl e ↦ (_, handle_response_absent conn id s e, emit-Inv s _ v)
  | inr (ref, e) ↦
      let (responses, hc, hi) = find_in-some id (find nat_key conn s.pending_responses) e in
      let (r, h, c, i, streaming) = v.responses_valid conn id ref e in
      elim (Bool-cases (is_streaming r.state)) [
        | inl p ↦
            let (a, q, w) =
              handle_stream-Inv conn id (promote_stream conn id ref responses r s)
                (promote-Inv conn id ref responses r s hc h c i (streaming p) v) in
            (a, handle_response_streaming conn id ref responses r s hc hi h p ∙ q, w)
        | inr p ↦ (
          _,
          handle_response_found conn id ref responses r s hc hi h p,
          deliver-Inv conn id ref responses r s hc h c i v,
        )
      ]
]

after_response-Inv : (conn : ℕ) (r : Bool × System) → Inv r.1 → Inv (after_response conn r)
unfolding after_response
after_response-Inv conn (true, s) v = v
after_response-Inv conn (false, s) v = emit-Inv s _ v

after_stream-Inv : (conn id : ℕ) (r : Bool × System) → Inv r.1 → Safe (after_stream conn id r)
unfolding after_stream
after_stream-Inv conn id (true, s) v = (s, refl, v)
after_stream-Inv conn id (false, s) v =
    let (a, q, w) = handle_response-Inv conn id s v in
    (
      after_response conn a,
      ap (λ m. m >>= λ x. ok (after_response conn x)) q,
      after_response-Inv conn a w,
    )

-- Any wake-up, for any connection and number, is served without a bad pointer.
pub handle_wakeup-Inv : (conn id : ℕ) (s : System) → Inv s → Safe (handle_wakeup conn id s)
unfolding handle_wakeup
handle_wakeup-Inv conn id s v =
    let (a, q, w) = handle_stream-Inv conn id s v in
    let (t, p, u) = after_stream-Inv conn id a w in
    (t, ap (λ m. m >>= after_stream conn id) q ∙ p, u)
