-- ===== src/Http/Safety/Refusal.antt =====
-- An answer whose wake-up mongoose refuses.
use mongoose_cpp.Prelude.{
  ℕ, suc, ◌==◌, ==_iff, ==_refl, ◌≡◌, ◌≢◌, Bool, refl, ◌∙◌, ap, sym, subst, true, false, List, [],
  ◌∷◌, ◌++◌, none, some, arith, All, get_elem?, set, replicate, Bool-cases, inl, inr, if◌then◌else◌,
  get_elem?-lt, get_elem?-set_self, get_elem?-set_ne, append-nil, Bytes, ℤ,
}
use mongoose_cpp.Table.{find, IsUnique, IsFresh}
use mongoose_cpp.Table.Keys.{nat_key}
use mongoose_cpp.Mongoose.{ok, refused}
use mongoose_cpp.Http.Headers
use mongoose_cpp.Http.AsyncResponse
use mongoose_cpp.Http.AsyncResponse.{AsyncResponse}
use mongoose_cpp.Http.AsyncResponse.State.{is_failed, is_pending, ResponseState}
use mongoose_cpp.Http.AsyncStream.{AsyncStream}
use mongoose_cpp.Http.Endpoint.State.{System, Env, Responses, send, user_action}
use mongoose_cpp.Http.Endpoint.Wakeup.{internal_server_error}
use mongoose_cpp.Http.Endpoint.Wakeup.Lookup.{find_at}
use mongoose_cpp.Http.Endpoint.Events.{handle_poll}
use mongoose_cpp.Http.Safety.Inv.{Inv}
use mongoose_cpp.Http.Safety.Pointers.{GoodResponse, good_responses}
use mongoose_cpp.Http.Safety.Users.{user_action-Inv}
use mongoose_cpp.Http.Safety.PollReplies.{failing, failed_at, failures, poll_answers_failed}

module _ (rs : List AsyncResponse) (xs : List AsyncStream) (conn ref : ℕ) (r failed : AsyncResponse)
    (here : get_elem? rs ref ≡ some r) where
  failed_at-set_ne : (k : ℕ) → ref ≢ k → failed_at (set rs ref failed) k ≡ failed_at rs k
  failed_at-set_ne k h = ap failing (get_elem?-set_ne rs failed h)

  -- Another number is that of another response.
  other_place : (id k : ℕ) → (id == r.id) ≡ false → GoodResponse rs xs conn (id, k) → ref ≢ k
  other_place id k h (q, at, c, i, streaming) same =
      let one : r ≡ q = cc (here, at, same) in absurd (false_id (sym i ∙ ap (λ z. z.id) (sym one)))
    where
      false_id : id ≡ r.id → ⊥
      false_id e = ground (arith, e, h)

  failures-set_fresh :
      (t : Responses)
      → IsFresh nat_key r.id t
      → All (GoodResponse rs xs conn) t
      → failures (set rs ref failed) t ≡ failures rs t
  failures-set_fresh [] f good = refl
  failures-set_fresh ((id, k) ∷ t) f good =
      rw (failed_at-set_ne k (other_place id k f.0 good.0))
        (rw (failures-set_fresh t f.1 good.1) refl)

  module _ (pending : is_failed r.state ≡ false) (fails : is_failed failed.state ≡ true) where
    failed_now : failed_at (set rs ref failed) ref ≡ true
    failed_now = ap failing (get_elem?-set_self rs ref failed (get_elem?-lt rs ref here)) ∙ fails

    not_before : failed_at rs ref ≡ false
    not_before = ap failing here ∙ pending

    failures-set_self :
        (t : Responses)
        → IsUnique nat_key t
        → All (GoodResponse rs xs conn) t
        → find nat_key r.id t ≡ some ref
        → failures (set rs ref failed) t ≡ suc (failures rs t)
    unfolding find
    failures-set_self [] u good e = cc e
    failures-set_self ((id, k) ∷ t) u good e = elim (Bool-cases (id == r.id)) [
      | inl p ↦
          let same : k ≡ ref = cc (rw p at e) in
          let rest =
            failures-set_fresh t (subst (λ z. IsFresh nat_key z t) ((==_iff id r.id).0 p) u.0)
              good.1 in
          rw (ap (failed_at (set rs ref failed)) same ∙ failed_now)
            (rw (ap (failed_at rs) same ∙ not_before) (ap suc rest))
      | inr p ↦
          rw (failed_at-set_ne k (other_place id k p good.0))
            (again (failed_at rs k) (failures-set_self t u.1 good.1 (rw p at e)))
    ]
      where
        again :
            (b : Bool) {m n : ℕ}
            → m ≡ suc n
            → (if b then suc m else m) ≡ suc (if b then suc n else n)
        again true h = ap suc h
        again false h = h

refused_action :
    (env : Env) (s : System) (ref : ℕ) (r : AsyncResponse) (code : ℤ) (body : Bytes)
    → get_elem? s.responses ref ≡ some r
    → is_pending r.state ≡ true
    → (failed : AsyncResponse) × (user_action env s ref (send code body refused)
        ≡ record s { responses = set s.responses ref failed })
      × (is_failed failed.state ≡ true)
unfolding user_action AsyncResponse.send
refused_action env s ref r code body hr h = (
  record r {
    payload = record {
      code = code;
      headers = Headers.format env.header_order r.headers false 0;
      body = body;
    };
    state = ResponseState.failed;
  },
  rw (hr, user_action) (rw h (rw (append-nil s.signals) refl)),
  refl,
)

pending-not_failed : (state : ResponseState) → is_pending state ≡ true → is_failed state ≡ false
pending-not_failed ResponseState.pending h = refl
pending-not_failed ResponseState.sending h = refl
pending-not_failed ResponseState.streaming h = refl
pending-not_failed ResponseState.completed h = refl
pending-not_failed ResponseState.failed h = cc h

-- Where the invariant of the endpoint holds, an answer that a user sends on a pending response, and
-- whose wake-up mongoose refuses, posts nothing; the next poll event of the connection makes an error
-- reply for it, beside those for the responses of the connection that had failed before, and no other
-- call, and it is not pending any more.
pub refused_answered_by_poll :
    (env : Env) (s : System) (ref : ℕ) (t : Responses) (r : AsyncResponse) (code : ℤ) (body : Bytes)
    → Inv s
    → find nat_key r.conn s.pending_responses ≡ some t
    → find nat_key r.id t ≡ some ref
    → get_elem? s.responses ref ≡ some r
    → is_pending r.state ≡ true
    → let sent = user_action env s ref (send code body refused) in
      (sent.signals ≡ s.signals)
      × ((s' : System) × (handle_poll r.conn sent ≡ ok s')
          × (s'.calls
              ≡ s.calls ++ replicate (suc (failures s.responses t)) (internal_server_error r.conn))
          × (find_at r.conn r.id s'.pending_responses ≡ none))
refused_answered_by_poll env s ref t r code body v e h hr p =
    let (failed, q, fails) = refused_action env s ref r code body hr p in
    let u = record s { responses = set s.responses ref failed } in
    let (s', polled, calls, at) =
      poll_answers_failed r.conn u t
        (subst Inv q (user_action-Inv env s ref (send code body refused) v)) e in
    let now =
      failed_now s.responses s.streams r.conn ref r failed hr (pending-not_failed r.state p)
        fails in
    let gone : find_at r.conn r.id s'.pending_responses ≡ none =
      at r.conn r.id ∙ rw (==_refl r.conn) (rw e (rw h (rw now refl))) in
    rw q (
      refl,
      (
        s',
        polled,
        calls
            ∙ ap (λ n. s.calls ++ replicate n (internal_server_error r.conn))
                (failures-set_self s.responses s.streams r.conn ref r failed hr
                  (pending-not_failed r.state p) fails t (v.responses_unique r.conn t e)
                  (good_responses r.conn t s e v) h),
        gone,
      ),
    )
