-- ===== src/Http/Numbers/Message.antt =====
-- A request makes one response at most, under the next number.
use mongoose_cpp.Prelude.{
  ℕ, ◌+◌, [], ◌∷◌, List, Option, none, some, Bytes, length, ltb, map-append, Bool-cases, inl, inr,
}
use mongoose_cpp.Mongoose.{Fault, fault, ◌>>=◌}
use mongoose_cpp.Http.AsyncResponse
use mongoose_cpp.Http.Connection.{Connection}
use mongoose_cpp.Http.Request
use mongoose_cpp.Http.Request.{Request, Message}
use mongoose_cpp.Http.Response
use mongoose_cpp.Http.Response.{Run, act_all}
use mongoose_cpp.Http.Endpoint.State.{System, Env, Listener, Callback, sync, async, Asset, emit}
use mongoose_cpp.Http.Endpoint.Message.{
  context_of, add_response, invoke, serve_fallback, serve_unlistened, serve_listener, serve_matched,
  handle_http_message, fill, match_listener,
}
use mongoose_cpp.Http.Isolation.{Leaves, Leaves-bind, Leaves-any, Leaves-of}
use mongoose_cpp.Http.Numbers.{
  Renumbers, IsCounted-new, AreMade-append, response_tag, response_tags, stream_tags,
}
use mongoose_cpp.Http.Numbers.Users.{user_actions-Renumbers}

-- The step of a connection.
abbrev pub Recounts : System → Connection × System → Type 0
Recounts s r = Renumbers s r.1

add_response-Renumbers : (conn : ℕ) (s : System) → Renumbers s (add_response conn s)
unfolding add_response AsyncResponse.new
add_response-Renumbers conn s (counted, made) =
    let new = AsyncResponse.new conn s.request_counter ∷ [] in
    (
      rw (map-append response_tag s.responses new)
          (IsCounted-new (response_tags s) s.request_counter conn counted),
      AreMade-append s.responses new (stream_tags s) made,
    )

invoke-Recounts :
    (env : Env) (conn : Connection) (callback : Callback) (request : Request) (s : System)
    → Leaves (Recounts s) (invoke env conn callback request s)
unfolding invoke
invoke-Recounts env conn (sync callback) request s =
    let r : Run = record { response = Response.new; conn = conn; calls = s.calls } in
    Leaves-bind (λ _. Unit) (Recounts s) (act_all env.header_order r (callback request)) _
      (Leaves-any (act_all env.header_order r (callback request))) (λ t _ h. h)
invoke-Recounts env conn (async callback) request s = λ h.
    user_actions-Renumbers env (add_response conn.id s) (length s.responses) (callback request)
      (add_response-Renumbers conn.id s h)

serve_fallback-Recounts :
    (env : Env) (conn : Connection) (msg : Message) (fallback : Option Listener) (s : System)
    → Leaves (Recounts s) (serve_fallback env conn msg fallback s)
unfolding serve_fallback emit
serve_fallback-Recounts env conn msg none s = λ h. h
serve_fallback-Recounts env conn msg (some listener) s =
    Leaves-bind (λ _. Unit) (Recounts s) (context_of conn) _ (Leaves-any (context_of conn))
      (λ c _. invoke-Recounts env conn listener.callback (Request.new msg c []) s)

serve_unlistened-Recounts :
    (env : Env) (conn : Connection) (msg : Message) (found : Option (Bytes × Asset)) (s : System)
    → Leaves (Recounts s) (serve_unlistened env conn msg found s)
unfolding serve_unlistened emit
serve_unlistened-Recounts env conn msg none s = serve_fallback-Recounts env conn msg s.fallback s
serve_unlistened-Recounts env conn msg (some (path, asset)) s = λ h. h

serve_listener-Recounts :
    (env : Env) (conn : Connection) (msg : Message) (l : Listener) (captures : List Bytes)
    (s : System)
    → Leaves (Recounts s) (serve_listener env conn msg l captures s)
unfolding serve_listener
serve_listener-Recounts env conn msg l captures s =
    elim (Bool-cases (ltb (length captures) (l.groups + 1))) [
      | inl p ↦
          let groups = fill (l.groups + 1) captures in
          Leaves-of (Recounts s) _
            (context_of conn >>= λ c. invoke env conn l.callback (Request.new msg c groups) s)
            (rw p)
            (Leaves-bind (λ _. Unit) (Recounts s) (context_of conn) _ (Leaves-any (context_of conn))
              (λ c _. invoke-Recounts env conn l.callback (Request.new msg c groups) s))
      | inr p ↦ Leaves-of (Recounts s) _ (fault Fault.overrun) (rw p) tt
    ]

serve_matched-Recounts :
    (env : Env) (conn : Connection) (msg : Message) (m : Option (Listener × List Bytes))
    (s : System)
    → Leaves (Recounts s) (serve_matched env conn msg m s)
unfolding serve_matched
serve_matched-Recounts env conn msg none s = serve_unlistened-Recounts env conn msg _ s
serve_matched-Recounts env conn msg (some (l, captures)) s =
    serve_listener-Recounts env conn msg l captures s

pub handle_http_message-Recounts :
    (env : Env) (conn : Connection) (msg : Message) (s : System)
    → Leaves (Recounts s) (handle_http_message env conn msg s)
unfolding handle_http_message
handle_http_message-Recounts env conn msg s =
    serve_matched-Recounts env conn msg
      (match_listener env msg.uri (env.listener_order.visit s.listeners)) s
