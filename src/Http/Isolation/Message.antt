-- ===== src/Http/Isolation/Message.antt =====
-- A request.
use mongoose_cpp.Prelude.{
  ℕ, ◌+◌, ◌≡◌, refl, ◌∙◌, ap, List, [], ◌∷◌, Option, none, some, Bytes, ℤ, length, get_elem?, ltb,
  Bool-cases, inl, inr, Option-cases,
}
use mongoose_cpp.Table.Order.{Order}
use mongoose_cpp.Mongoose.{MgCall, Fault, ok, fault, ◌>>=◌}
use mongoose_cpp.Http.Headers.{Entry}
use mongoose_cpp.Http.AsyncResponse.{AsyncResponse}
use mongoose_cpp.Http.Connection.{Connection, Producer}
use mongoose_cpp.Http.Request
use mongoose_cpp.Http.Request.{Request, Message}
use mongoose_cpp.Http.Response
use mongoose_cpp.Http.Response.{
  Run, Action, header, send, stream, act, act_all, send_reply, stream_reply, stream_open, attach,
}
use mongoose_cpp.Http.Endpoint.State.{
  System, Env, Listener, Callback, sync, async, Asset, emit, AsyncAction, act as act_async,
  user_action, user_actions,
}
use mongoose_cpp.Http.Endpoint.Wakeup.Lookup.{find_at, find_at-assign_at}
use mongoose_cpp.Http.Endpoint.Message.{
  context_of, add_response, invoke, serve_fallback, serve_unlistened, serve_listener, serve_matched,
  handle_http_message, fill, match_listener,
}
use mongoose_cpp.Http.Isolation.{Leaves, Leaves-bind, Leaves-weaken, Leaves-any, Leaves-of, Apart}
use mongoose_cpp.Http.Isolation.Wakeup.{emit-Stays}

-- A user's call on a response leaves the endpoint's maps alone.
pub user_action-endpoint :
    (env : Env) (s : System) (ref : ℕ) (a : AsyncAction)
    → (user_action env s ref a).endpoint ≡ s.endpoint
unfolding user_action act_async
user_action-endpoint env s ref a = elim (Option-cases (get_elem? s.responses ref)) [
  | inl e ↦ rw (e, user_action)
  | inr (r, e) ↦ rw (e, user_action) (acted r a)
]
  where
    acted : (r : AsyncResponse) (a : AsyncAction) → (act_async env s ref r a).endpoint ≡ s.endpoint
    acted r (AsyncAction.header w) = refl
    acted r (AsyncAction.send code body answer) = refl
    acted r (AsyncAction.stream code encoding answer) = refl

user_actions-endpoint :
    (env : Env) (s : System) (ref : ℕ) (actions : List AsyncAction)
    → (user_actions env s ref actions).endpoint ≡ s.endpoint
unfolding user_actions
user_actions-endpoint env s ref [] = refl
user_actions-endpoint env s ref (a ∷ rest) =
    user_actions-endpoint env (user_action env s ref a) ref rest ∙ user_action-endpoint env s ref a

-- A handler's calls leave the connection its id and its mark.
abbrev Same : Run → Run → Type 0
Same r r' = (r'.conn.id ≡ r.conn.id) × (r'.conn.tag ≡ r.conn.tag)

stream_open-Same :
    (o : Order Entry) (r : Run) (code : ℤ) (encoding : Bytes) (producer : Producer)
    → Leaves (Same r) (stream_open o r code encoding producer)
unfolding stream_open
stream_open-Same o r code encoding producer =
    Leaves-bind (λ _. Unit) (Same r) (attach r.conn.fn_data producer) _
      (Leaves-any (attach r.conn.fn_data producer)) (λ fn_data _. (refl, refl))

act-Same : (o : Order Entry) (r : Run) (a : Action) → Leaves (Same r) (act o r a)
unfolding act send_reply stream_reply
act-Same o r (header w) = (refl, refl)
act-Same o r (send code body) = elim (Bool-cases r.response.is_open) [
  | inl p ↦ rw p (refl, refl)
  | inr p ↦ rw p (refl, refl)
]
act-Same o r (stream code encoding producer) = elim (Bool-cases r.response.is_open) [
  | inl p ↦
      Leaves-of (Same r) _ (stream_open o r code encoding producer) (rw p)
        (stream_open-Same o r code encoding producer)
  | inr p ↦ Leaves-of (Same r) _ (ok r) (rw p) (refl, refl)
]

act_all-Same :
    (o : Order Entry) (r : Run) (actions : List Action) → Leaves (Same r) (act_all o r actions)
unfolding act_all
act_all-Same o r [] = (refl, refl)
act_all-Same o r (a ∷ rest) =
    Leaves-bind (Same r) (Same r) (act o r a) (λ t. act_all o t rest) (act-Same o r a)
      (λ t h.
        Leaves-weaken (Same t) (Same r) (act_all o t rest) (λ u k. (k.0 ∙ h.0, k.1 ∙ h.1))
          (act_all-Same o t rest))

-- The step leaves the connection its id and its mark, and changes nothing under another.
abbrev pub Kept : Connection → System → Connection × System → Type 0
Kept conn s r = Apart conn.id s r.1 × (r.0.id ≡ conn.id) × (r.0.tag ≡ conn.tag)

add_response-Apart : (conn : ℕ) (s : System) → Apart conn s (add_response conn s)
unfolding add_response
add_response-Apart conn s = λ c id h. (
  find_at-assign_at conn s.request_counter c id (length s.responses) s.pending_responses ∙ rw h,
  refl,
)

invoke-Kept :
    (env : Env) (conn : Connection) (callback : Callback) (request : Request) (s : System)
    → Leaves (Kept conn s) (invoke env conn callback request s)
unfolding invoke
invoke-Kept env conn (sync callback) request s =
    let r : Run = record { response = Response.new; conn = conn; calls = s.calls } in
    Leaves-bind (Same r) (Kept conn s) (act_all env.header_order r (callback request)) _
      (act_all-Same env.header_order r (callback request))
      (λ t h. (λ c id d. (refl, refl), h.0, h.1))
invoke-Kept env conn (async callback) request s =
    let t = add_response conn.id s in
    let same = user_actions-endpoint env t (length s.responses) (callback request) in
    (
      λ c id d. (
        ap (λ e. find_at c id e.pending_responses) same ∙ (add_response-Apart conn.id s c id d).0,
        ap (λ e. find_at c id e.pending_streams) same ∙ (add_response-Apart conn.id s c id d).1,
      ),
      refl,
      refl,
    )

emit-Kept : (conn : Connection) (s : System) (call : MgCall) → Kept conn s (conn, emit s call)
emit-Kept conn s call = ((emit-Stays conn.id s call).0, refl, refl)

serve_fallback-Kept :
    (env : Env) (conn : Connection) (msg : Message) (fallback : Option Listener) (s : System)
    → Leaves (Kept conn s) (serve_fallback env conn msg fallback s)
unfolding serve_fallback
serve_fallback-Kept env conn msg none s = emit-Kept conn s _
serve_fallback-Kept env conn msg (some listener) s =
    Leaves-bind (λ _. Unit) (Kept conn s) (context_of conn) _ (Leaves-any (context_of conn))
      (λ c _. invoke-Kept env conn listener.callback (Request.new msg c []) s)

serve_unlistened-Kept :
    (env : Env) (conn : Connection) (msg : Message) (found : Option (Bytes × Asset)) (s : System)
    → Leaves (Kept conn s) (serve_unlistened env conn msg found s)
unfolding serve_unlistened
serve_unlistened-Kept env conn msg none s = serve_fallback-Kept env conn msg s.fallback s
serve_unlistened-Kept env conn msg (some (path, asset)) s = emit-Kept conn s _

serve_listener-Kept :
    (env : Env) (conn : Connection) (msg : Message) (l : Listener) (captures : List Bytes)
    (s : System)
    → Leaves (Kept conn s) (serve_listener env conn msg l captures s)
unfolding serve_listener
serve_listener-Kept env conn msg l captures s =
    elim (Bool-cases (ltb (length captures) (l.groups + 1))) [
      | inl p ↦
          Leaves-of (Kept conn s) _
            (context_of conn >>= λ c.
              invoke env conn l.callback (Request.new msg c (fill (l.groups + 1) captures)) s)
            (rw p)
            (Leaves-bind (λ _. Unit) (Kept conn s) (context_of conn) _
              (Leaves-any (context_of conn))
              (λ c _.
                invoke-Kept env conn l.callback (Request.new msg c (fill (l.groups + 1) captures))
                  s))
      | inr p ↦ Leaves-of (Kept conn s) _ (fault Fault.overrun) (rw p) tt
    ]

serve_matched-Kept :
    (env : Env) (conn : Connection) (msg : Message) (m : Option (Listener × List Bytes))
    (s : System)
    → Leaves (Kept conn s) (serve_matched env conn msg m s)
unfolding serve_matched
serve_matched-Kept env conn msg none s = serve_unlistened-Kept env conn msg _ s
serve_matched-Kept env conn msg (some (l, captures)) s =
    serve_listener-Kept env conn msg l captures s

pub handle_http_message-Kept :
    (env : Env) (conn : Connection) (msg : Message) (s : System)
    → Leaves (Kept conn s) (handle_http_message env conn msg s)
unfolding handle_http_message
handle_http_message-Kept env conn msg s =
    serve_matched-Kept env conn msg
      (match_listener env msg.uri (env.listener_order.visit s.listeners)) s
