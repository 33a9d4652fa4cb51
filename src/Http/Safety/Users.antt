-- ===== src/Http/Safety/Users.antt =====
-- The calls of users on shared responses and streams keep the invariant.
use mongoose_cpp.Prelude.{
  ℕ, ◌≡◌, refl, List, [], ◌∷◌, some, Bytes, ℤ, get_elem?, length, Bool-cases, Option-cases, inl,
  inr, get_elem?-append_end,
}
use mongoose_cpp.Table.Order.{Order}
use mongoose_cpp.Mongoose.{Wakeup, gone, refused, posted}
use mongoose_cpp.Http.Headers.{Entry}
use mongoose_cpp.Http.AsyncStream
use mongoose_cpp.Http.AsyncStream.{AsyncStream}
use mongoose_cpp.Http.AsyncResponse
use mongoose_cpp.Http.AsyncResponse.{AsyncResponse, Streamed, stream as stream_response}
use mongoose_cpp.Http.AsyncResponse.State.{is_pending}
use mongoose_cpp.Http.Endpoint.State.{
  System, Env, AsyncAction, header, send, stream, act, user_action, user_actions, stream_send,
  stream_close,
}
use mongoose_cpp.Http.Safety.Valid.{
  HasStream, Keeps, Keeps-refl, Keeps-set, Keeps-append, ValidResponse-Keeps, ValidResponse-set,
}
use mongoose_cpp.Http.Safety.Inv.{Inv, Inv-store}

-- What a call on a response leaves: the same connection and number, and its stream if it streams.
abbrev StaysGood : List AsyncStream → AsyncResponse → AsyncResponse → Type 0
StaysGood xs r r' = (r'.conn ≡ r.conn) × (r'.id ≡ r.id) × (HasStream xs r → HasStream xs r')

send_pending_good :
    (o : Order Entry) (xs : List AsyncStream) (r : AsyncResponse) (code : ℤ) (body : Bytes)
    (answer : Wakeup)
    → StaysGood xs r (AsyncResponse.send_pending o r code body answer).0
unfolding AsyncResponse.send_pending
send_pending_good o xs r code body gone = (refl, refl, λ h st. cc)
send_pending_good o xs r code body refused = (refl, refl, λ h st. cc)
send_pending_good o xs r code body posted = (refl, refl, λ h st. cc)

send_good :
    (o : Order Entry) (xs : List AsyncStream) (r : AsyncResponse) (code : ℤ) (body : Bytes)
    (answer : Wakeup)
    → StaysGood xs r (AsyncResponse.send o r code body answer).0
unfolding AsyncResponse.send
send_good o xs r code body answer = elim (Bool-cases (is_pending r.state)) [
  | inl p ↦ rw p (send_pending_good o xs r code body answer)
  | inr p ↦ rw p (refl, refl, λ h. h)
]

-- What a call of `stream` leaves.
abbrev StreamsGood : List AsyncStream → AsyncResponse → Streamed → Type 0
StreamsGood xs r done = Keeps xs done.streams × StaysGood done.streams r done.response

stream_pending_good :
    (o : Order Entry) (r : AsyncResponse) (xs : List AsyncStream) (code : ℤ) (encoding : Bytes)
    (answer : Wakeup)
    → StreamsGood xs r (AsyncResponse.stream_pending o r xs code encoding answer)
unfolding AsyncResponse.stream_pending AsyncStream.new
stream_pending_good o r xs code encoding gone = (Keeps-refl xs, (refl, refl, λ h st. cc))
stream_pending_good o r xs code encoding refused = (Keeps-append xs _, (refl, refl, λ h st. cc))
stream_pending_good o r xs code encoding posted = (
  Keeps-append xs _,
  (refl, refl, λ h st. (length xs, _, refl, get_elem?-append_end xs _, refl, refl)),
)

stream_good :
    (o : Order Entry) (r : AsyncResponse) (xs : List AsyncStream) (code : ℤ) (encoding : Bytes)
    (answer : Wakeup)
    → StreamsGood xs r (stream_response o r xs code encoding answer)
unfolding stream_response
stream_good o r xs code encoding answer = elim (Bool-cases (is_pending r.state)) [
  | inl p ↦ rw p (stream_pending_good o r xs code encoding answer)
  | inr p ↦ rw p (Keeps-refl xs, (refl, refl, λ h. h))
]

act-Inv :
    (env : Env) (s : System) (ref : ℕ) (r : AsyncResponse) (a : AsyncAction)
    → get_elem? s.responses ref ≡ some r
    → Inv s
    → Inv (act env s ref r a)
unfolding act
act-Inv env s ref r (header w) h v =
    Inv-store s _ s.streams s.calls s.signals v (Keeps-refl s.streams)
      (ValidResponse-set s.responses s.streams ref r _ h refl refl (λ k. k))
act-Inv env s ref r (send code body answer) h v =
    let (c, i, good) = send_good env.header_order s.streams r code body answer in
    Inv-store s _ s.streams s.calls _ v (Keeps-refl s.streams)
      (ValidResponse-set s.responses s.streams ref r _ h c i good)
act-Inv env s ref r (stream code encoding answer) h v =
    let (keep, (c, i, good)) = stream_good env.header_order r s.streams code encoding answer in
    Inv-store s _ _ s.calls _ v keep (λ ref' conn id valid.
      ValidResponse-set s.responses _ ref r _ h c i good ref' conn id
        (ValidResponse-Keeps s.responses s.streams _ ref' conn id keep valid))

-- A user's call on any response keeps the invariant.
pub user_action-Inv :
    (env : Env) (s : System) (ref : ℕ) (a : AsyncAction) → Inv s → Inv (user_action env s ref a)
unfolding user_action
user_action-Inv env s ref a v = elim (Option-cases (get_elem? s.responses ref)) [
  | inl e ↦ rw (e, user_action) v
  | inr (r, e) ↦ rw (e, user_action) (act-Inv env s ref r a e v)
]

pub user_actions-Inv :
    (env : Env) (s : System) (ref : ℕ) (as' : List AsyncAction)
    → Inv s
    → Inv (user_actions env s ref as')
unfolding user_actions
user_actions-Inv env s ref [] v = v
user_actions-Inv env s ref (a ∷ rest) v =
    user_actions-Inv env (user_action env s ref a) ref rest (user_action-Inv env s ref a v)

wake_place :
    (x : AsyncStream) (answer : Wakeup)
    → ((AsyncStream.wake x answer).0.conn ≡ x.conn) × ((AsyncStream.wake x answer).0.id ≡ x.id)
unfolding AsyncStream.wake
wake_place x gone = (refl, refl)
wake_place x refused = (refl, refl)
wake_place x posted = (refl, refl)

-- So does a producer's `send` or `close` on any stream.
pub stream_send-Inv :
    (s : System) (ref : ℕ) (body : Bytes) (answer : Wakeup)
    → Inv s
    → Inv (stream_send s ref body answer)
unfolding stream_send AsyncStream.send
stream_send-Inv s ref body answer v = elim (Option-cases (get_elem? s.streams ref)) [
  | inl e ↦ rw (e, stream_send) v
  | inr (x, e) ↦
      rw (e, stream_send)
        (let keep = Keeps-set s.streams ref x _ e (wake_place _ answer).0 (wake_place _ answer).1 in
          Inv-store s s.responses _ s.calls _ v keep
            (λ ref' conn id. ValidResponse-Keeps s.responses s.streams _ ref' conn id keep))
]

pub stream_close-Inv :
    (s : System) (ref : ℕ) (answer : Wakeup) → Inv s → Inv (stream_close s ref answer)
unfolding stream_close AsyncStream.close
stream_close-Inv s ref answer v = elim (Option-cases (get_elem? s.streams ref)) [
  | inl e ↦ rw (e, stream_close) v
  | inr (x, e) ↦
      rw (e, stream_close)
        (let keep = Keeps-set s.streams ref x _ e (wake_place _ answer).0 (wake_place _ answer).1 in
          Inv-store s s.responses _ s.calls _ v keep
            (λ ref' conn id. ValidResponse-Keeps s.responses s.streams _ ref' conn id keep))
]
