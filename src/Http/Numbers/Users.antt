-- ===== src/Http/Numbers/Users.antt =====
-- The calls of users and producers: only `stream` makes a stream.
use mongoose_cpp.Prelude.{
  false, get_elem?-set_self, get_elem?-lt, set, subst, ℕ, ◌≡◌, refl, ◌∙◌, sym, List, [], ◌∷◌, ◌++◌,
  none, some, Bytes, ℤ, map-append, get_elem?, map-set_same, Bool-cases, Option-cases, inl, inr,
  ◌⊎◌,
}
use mongoose_cpp.Table.Order.{Order}
use mongoose_cpp.Mongoose.{Wakeup, gone, refused, posted}
use mongoose_cpp.Http.Headers.{Entry}
use mongoose_cpp.Http.AsyncStream
use mongoose_cpp.Http.AsyncStream.{AsyncStream}
use mongoose_cpp.Http.AsyncResponse
use mongoose_cpp.Http.AsyncResponse.{AsyncResponse, Streamed, stream as stream_response}
use mongoose_cpp.Http.AsyncResponse.State.{is_pending}
use mongoose_cpp.Http.Endpoint.State.{
  System, Env, AsyncAction, header, send, stream, act, user_action, user_actions, stream_send,
  stream_close,
}
use mongoose_cpp.Http.Numbers.{
  Settles-refl, response_tag, stream_tag, Unnumbered, Renumbers, Settles-set, AreMade-Settles,
  AreMade-stream, IsNumbered, stream_tags,
}

-- A call on a response keeps its tag, and does not bring it back to `pending`.
abbrev Kept : AsyncResponse → AsyncResponse → Type 0
Kept r r' =
    (response_tag r' ≡ response_tag r) × (is_pending r.state ≡ false → is_pending r'.state ≡ false)

send-Kept :
    (o : Order Entry) (r : AsyncResponse) (code : ℤ) (body : Bytes) (answer : Wakeup)
    → Kept r (AsyncResponse.send o r code body answer).0
unfolding AsyncResponse.send AsyncResponse.send_pending
send-Kept o r code body answer = elim (Bool-cases (is_pending r.state)) [
  | inl p ↦
      let e : AsyncResponse.send o r code body answer
          ≡ AsyncResponse.send_pending o r code body answer =
        rw p in
      subst (λ z. Kept r z.0) (sym e) (sent answer)
  | inr p ↦
      let e : AsyncResponse.send o r code body answer ≡ (r, []) = rw p in
      subst (λ z. Kept r z.0) (sym e) (refl, λ z. z)
]
  where
    sent : (answer : Wakeup) → Kept r (AsyncResponse.send_pending o r code body answer).0
    sent gone = (refl, λ z. refl)
    sent refused = (refl, λ z. refl)
    sent posted = (refl, λ z. refl)

-- A call of `stream` gives a stream that it makes the tag of the response, which leaves `pending`.
abbrev Streams : AsyncResponse → List AsyncStream → Streamed → Type 0
Streams r xs done =
    Kept r done.response
    × ((done.streams ≡ xs)
        ⊎ ((x : AsyncStream) × (done.streams ≡ xs ++ x ∷ [])
            × (stream_tag x ≡ response_tag r)
            × (is_pending done.response.state ≡ false)))

stream-Kept :
    (o : Order Entry) (r : AsyncResponse) (xs : List AsyncStream) (code : ℤ) (encoding : Bytes)
    (answer : Wakeup)
    → Streams r xs (stream_response o r xs code encoding answer)
unfolding stream_response AsyncResponse.stream_pending AsyncStream.new
stream-Kept o r xs code encoding answer = elim (Bool-cases (is_pending r.state)) [
  | inl p ↦
      let e : stream_response o r xs code encoding answer
          ≡ AsyncResponse.stream_pending o r xs code encoding answer =
        rw p in
      subst (Streams r xs) (sym e) (streamed answer)
  | inr p ↦
      let e : stream_response o r xs code encoding answer
          ≡ record { response = r; streams = xs; result = none; signals = [] } =
        rw p in
      subst (Streams r xs) (sym e) ((refl, λ z. z), inl refl)
]
  where
    streamed :
        (answer : Wakeup) → Streams r xs (AsyncResponse.stream_pending o r xs code encoding answer)
    streamed gone = ((refl, λ z. refl), inl refl)
    streamed refused = ((refl, λ z. refl), inr (_, refl, refl, refl))
    streamed posted = ((refl, λ z. refl), inr (_, refl, refl, refl))

-- A call that writes one response, and makes one stream at most.
written-IsNumbered :
    (s : System) (ref : ℕ) (r r' : AsyncResponse) (xs : List AsyncStream)
    → get_elem? s.responses ref ≡ some r
    → Kept r r'
    → (xs ≡ s.streams)
      ⊎ ((x : AsyncStream) × (xs ≡ s.streams ++ x ∷ [])
          × (stream_tag x ≡ response_tag r)
          × (is_pending r'.state ≡ false))
    → IsNumbered s
    → IsNumbered (record s { responses = set s.responses ref r'; streams = xs })
written-IsNumbered s ref r r' xs h (tag, keep) streams (counted, made) =
    let rs' = set s.responses ref r' in
    let tags = map-set_same s.responses response_tag ref r' h tag in
    let old =
      AreMade-Settles s.responses rs' (stream_tags s) (Settles-set s.responses ref r r' h tag keep)
        made in
    (
      rw tags counted,
      elim streams [
        | inl e ↦ rw e old
        | inr (x, e, same, left) ↦ rw e (
            rw (map-append stream_tag s.streams (x ∷ [])) (
              AreMade-stream rs' (stream_tags s) (stream_tag x)
                (
                  ref,
                  r',
                  get_elem?-set_self s.responses ref r' (get_elem?-lt s.responses ref h),
                  tag ∙ sym same,
                  left,
                )
                old))
      ],
    )

act-Renumbers :
    (env : Env) (s : System) (ref : ℕ) (r : AsyncResponse) (a : AsyncAction)
    → get_elem? s.responses ref ≡ some r
    → Renumbers s (act env s ref r a)
unfolding act
act-Renumbers env s ref r (header w) h =
    written-IsNumbered s ref r _ s.streams h (refl, λ z. z) (inl refl)
act-Renumbers env s ref r (send code body answer) h =
    written-IsNumbered s ref r _ s.streams h (send-Kept env.header_order r code body answer)
      (inl refl)
act-Renumbers env s ref r (stream code encoding answer) h =
    let (kept, streams) = stream-Kept env.header_order r s.streams code encoding answer in
    written-IsNumbered s ref r _ _ h kept streams

pub user_action-Renumbers :
    (env : Env) (s : System) (ref : ℕ) (a : AsyncAction) → Renumbers s (user_action env s ref a)
unfolding user_action
user_action-Renumbers env s ref a = elim (Option-cases (get_elem? s.responses ref)) [
  | inl e ↦ rw (e, user_action) (λ h. h)
  | inr (r, e) ↦ rw (e, user_action) (act-Renumbers env s ref r a e)
]

pub user_actions-Renumbers :
    (env : Env) (s : System) (ref : ℕ) (actions : List AsyncAction)
    → Renumbers s (user_actions env s ref actions)
unfolding user_actions
user_actions-Renumbers env s ref [] h = h
user_actions-Renumbers env s ref (a ∷ rest) h =
    user_actions-Renumbers env (user_action env s ref a) ref rest
      (user_action-Renumbers env s ref a h)

wake-stream_tag :
    (x : AsyncStream) (answer : Wakeup) → stream_tag (AsyncStream.wake x answer).0 ≡ stream_tag x
unfolding AsyncStream.wake
wake-stream_tag x gone = refl
wake-stream_tag x refused = refl
wake-stream_tag x posted = refl

pub stream_send-Unnumbered :
    (s : System) (ref : ℕ) (body : Bytes) (answer : Wakeup)
    → Unnumbered s (stream_send s ref body answer)
unfolding stream_send AsyncStream.send
stream_send-Unnumbered s ref body answer = elim (Option-cases (get_elem? s.streams ref)) [
  | inl e ↦ rw (e, stream_send) (refl, refl, refl, Settles-refl s.responses)
  | inr (x, e) ↦
      rw (e, stream_send)
        (
          refl,
          refl,
          map-set_same s.streams stream_tag ref _ e (wake-stream_tag _ answer),
          Settles-refl s.responses,
        )
]

pub stream_close-Unnumbered :
    (s : System) (ref : ℕ) (answer : Wakeup) → Unnumbered s (stream_close s ref answer)
unfolding stream_close AsyncStream.close
stream_close-Unnumbered s ref answer = elim (Option-cases (get_elem? s.streams ref)) [
  | inl e ↦ rw (e, stream_close) (refl, refl, refl, Settles-refl s.responses)
  | inr (x, e) ↦
      rw (e, stream_close)
        (
          refl,
          refl,
          map-set_same s.streams stream_tag ref _ e (wake-stream_tag _ answer),
          Settles-refl s.responses,
        )
]
