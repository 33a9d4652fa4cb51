-- ===== src/Http/Lost/Users.antt =====
-- The calls of users and producers.
use mongoose_cpp.Prelude.{
  ℕ, ◌≡◌, refl, ap, ◌∙◌, sym, subst, false, List, [], ◌∷◌, Bytes, get_elem?, set, Option-cases, inl,
  inr,
}
use mongoose_cpp.Mongoose.{Wakeup}
use mongoose_cpp.Http.AsyncResponse.{AsyncResponse}
use mongoose_cpp.Http.AsyncResponse.State.{ResponseState, is_pending}
use mongoose_cpp.Http.AsyncResponse.Laws.{settled_ignores}
use mongoose_cpp.Http.Endpoint.State.{
  System, Env, AsyncAction, header, send, stream, act, user_action, user_actions, stream_send,
  stream_close,
}
use mongoose_cpp.Http.Safety.Close.{FailedAt}
use mongoose_cpp.Http.Isolation.Message.{user_action-endpoint}
use mongoose_cpp.Http.Lost.{IsLost, IsAbsent, FailedAt-set_same}

not_pending : (r : AsyncResponse) → r.state ≡ ResponseState.failed → is_pending r.state ≡ false
not_pending r f = ap is_pending f

-- A call writes its response, which stays failed if it had.
act_writes :
    (env : Env) (s : System) (ref : ℕ) (r : AsyncResponse) (a : AsyncAction)
    → (r' : AsyncResponse) × ((act env s ref r a).responses ≡ set s.responses ref r')
      × (r.state ≡ ResponseState.failed → r'.state ≡ ResponseState.failed)
unfolding act
act_writes env s ref r (header w) = (_, refl, λ f. f)
act_writes env s ref r (send code body answer) = (
  _,
  refl,
  λ f.
      ap (λ z. z.0.state)
        ((settled_ignores env.header_order r answer (not_pending r f)).0 code body)
      ∙ f,
)
act_writes env s ref r (stream code encoding answer) = (
  _,
  refl,
  λ f.
      ap (λ z. z.response.state)
        ((settled_ignores env.header_order r answer (not_pending r f)).1 s.streams code encoding)
      ∙ f,
)

pub user_action-IsLost :
    (env : Env) (s : System) (k ref : ℕ) (a : AsyncAction)
    → IsLost ref s
    → IsLost ref (user_action env s k a)
unfolding user_action
user_action-IsLost env s k ref a (f, absent) = elim (Option-cases (get_elem? s.responses k)) [
  | inl e ↦ rw (e, user_action) (f, absent)
  | inr (r, e) ↦
      let (r', writes, keep) = act_writes env s k r a in
      let moved : user_action env s k a ≡ act env s k r a = rw (e, user_action) in
      (
        subst (λ z. FailedAt z ref) (sym (ap (λ z. z.responses) moved ∙ writes))
            (FailedAt-set_same s.responses k ref r r' e keep f),
        subst (λ z. IsAbsent ref z.pending_responses) (sym (user_action-endpoint env s k a)) absent,
      )
]

pub user_actions-IsLost :
    (env : Env) (s : System) (k ref : ℕ) (actions : List AsyncAction)
    → IsLost ref s
    → IsLost ref (user_actions env s k actions)
unfolding user_actions
user_actions-IsLost env s k ref [] h = h
user_actions-IsLost env s k ref (a ∷ rest) h =
    user_actions-IsLost env (user_action env s k a) k ref rest (user_action-IsLost env s k ref a h)

pub stream_send-IsLost :
    (s : System) (k ref : ℕ) (body : Bytes) (answer : Wakeup)
    → IsLost ref s
    → IsLost ref (stream_send s k body answer)
unfolding stream_send
stream_send-IsLost s k ref body answer h = elim (Option-cases (get_elem? s.streams k)) [
  | inl e ↦ rw (e, stream_send) h
  | inr (x, e) ↦ rw (e, stream_send) h
]

pub stream_close-IsLost :
    (s : System) (k ref : ℕ) (answer : Wakeup) → IsLost ref s → IsLost ref (stream_close s k answer)
unfolding stream_close
stream_close-IsLost s k ref answer h = elim (Option-cases (get_elem? s.streams k)) [
  | inl e ↦ rw (e, stream_close) h
  | inr (x, e) ↦ rw (e, stream_close) h
]
