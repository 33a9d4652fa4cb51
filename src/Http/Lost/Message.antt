-- ===== src/Http/Lost/Message.antt =====
-- A request: what it makes is another response.
use mongoose_cpp.Prelude.{
  ℕ, ◌+◌, ◌≢◌, [], List, Option, none, some, Bytes, arith, length, ltb, get_elem?-lt, Bool-cases,
  Option-cases, inl, inr,
}
use mongoose_cpp.Table.{Table, find}
use mongoose_cpp.Table.Keys.{nat_key}
use mongoose_cpp.Table.Values.{find-AllValues, assign-AllValues}
use mongoose_cpp.Mongoose.{Fault, fault, ◌>>=◌}
use mongoose_cpp.Http.AsyncResponse.{AsyncResponse}
use mongoose_cpp.Http.Connection.{Connection}
use mongoose_cpp.Http.Request
use mongoose_cpp.Http.Request.{Request, Message}
use mongoose_cpp.Http.Response
use mongoose_cpp.Http.Response.{Run, act_all}
use mongoose_cpp.Http.Endpoint.State.{
  System, Env, Listener, Responses, Callback, sync, async, Asset, emit,
}
use mongoose_cpp.Http.Endpoint.Wakeup.{inner}
use mongoose_cpp.Http.Endpoint.Message.{
  context_of, add_response, invoke, serve_fallback, serve_unlistened, serve_listener, serve_matched,
  handle_http_message, fill, match_listener,
}
use mongoose_cpp.Http.Safety.Close.{FailedAt}
use mongoose_cpp.Http.Isolation.{Leaves, Leaves-bind, Leaves-any, Leaves-of}
use mongoose_cpp.Http.Lost.{IsAbsentIn, IsAbsent, IsLost, FailedAt-append}
use mongoose_cpp.Http.Lost.Users.{user_actions-IsLost}
use mongoose_cpp.Http.Lost.Events.{StillLost}

module _ (ref : ℕ) where
  inner-IsAbsentIn :
      (conn : ℕ) (m : Table ℕ Responses) → IsAbsent ref m → IsAbsentIn ref (inner conn m)
  inner-IsAbsentIn conn m a = elim (Option-cases (find nat_key conn m)) [
    | inl e ↦ rw (e, inner) tt
    | inr (t, e) ↦ rw (e, inner) (find-AllValues nat_key (IsAbsentIn ref) conn m a e)
  ]

  other_place : (rs : List AsyncResponse) → FailedAt rs ref → length rs ≢ ref
  other_place rs (r, h, f) = λ e. omega (arith, get_elem?-lt rs ref h, e)

  add_response-IsLost : (conn : ℕ) (s : System) → IsLost ref s → IsLost ref (add_response conn s)
  unfolding add_response
  add_response-IsLost conn s (f, a) =
      let ne = other_place s.responses f in
      (
        FailedAt-append s.responses _ ref f,
        assign-AllValues nat_key (IsAbsentIn ref) conn _ s.pending_responses
            (assign-AllValues nat_key (λ v. v ≢ ref) s.request_counter (length s.responses)
              (inner conn s.pending_responses) ne (inner-IsAbsentIn conn s.pending_responses a))
            a,
      )

  invoke-IsLost :
      (env : Env) (conn : Connection) (callback : Callback) (request : Request) (s : System)
      → IsLost ref s
      → Leaves (StillLost ref) (invoke env conn callback request s)
  unfolding invoke
  invoke-IsLost env conn (sync callback) request s h =
      let r : Run = record { response = Response.new; conn = conn; calls = s.calls } in
      Leaves-bind (λ _. Unit) (StillLost ref) (act_all env.header_order r (callback request)) _
        (Leaves-any (act_all env.header_order r (callback request))) (λ t _. h)
  invoke-IsLost env conn (async callback) request s h =
      user_actions-IsLost env (add_response conn.id s) (length s.responses) ref (callback request)
        (add_response-IsLost conn.id s h)

  serve_fallback-IsLost :
      (env : Env) (conn : Connection) (msg : Message) (fallback : Option Listener) (s : System)
      → IsLost ref s
      → Leaves (StillLost ref) (serve_fallback env conn msg fallback s)
  unfolding serve_fallback emit
  serve_fallback-IsLost env conn msg none s h = h
  serve_fallback-IsLost env conn msg (some listener) s h =
      Leaves-bind (λ _. Unit) (StillLost ref) (context_of conn) _ (Leaves-any (context_of conn))
        (λ c _. invoke-IsLost env conn listener.callback (Request.new msg c []) s h)

  serve_unlistened-IsLost :
      (env : Env) (conn : Connection) (msg : Message) (found : Option (Bytes × Asset)) (s : System)
      → IsLost ref s
      → Leaves (StillLost ref) (serve_unlistened env conn msg found s)
  unfolding serve_unlistened emit
  serve_unlistened-IsLost env conn msg none s h = serve_fallback-IsLost env conn msg s.fallback s h
  serve_unlistened-IsLost env conn msg (some (path, asset)) s h = h

  serve_listener-IsLost :
      (env : Env) (conn : Connection) (msg : Message) (l : Listener) (captures : List Bytes)
      (s : System)
      → IsLost ref s
      → Leaves (StillLost ref) (serve_listener env conn msg l captures s)
  unfolding serve_listener
  serve_listener-IsLost env conn msg l captures s h =
      elim (Bool-cases (ltb (length captures) (l.groups + 1))) [
        | inl p ↦
            let groups = fill (l.groups + 1) captures in
            Leaves-of (StillLost ref) _
              (context_of conn >>= λ c. invoke env conn l.callback (Request.new msg c groups) s)
              (rw p)
              (Leaves-bind (λ _. Unit) (StillLost ref) (context_of conn) _
                (Leaves-any (context_of conn))
                (λ c _. invoke-IsLost env conn l.callback (Request.new msg c groups) s h))
        | inr p ↦ Leaves-of (StillLost ref) _ (fault Fault.overrun) (rw p) tt
      ]

  serve_matched-IsLost :
      (env : Env) (conn : Connection) (msg : Message) (m : Option (Listener × List Bytes))
      (s : System)
      → IsLost ref s
      → Leaves (StillLost ref) (serve_matched env conn msg m s)
  unfolding serve_matched
  serve_matched-IsLost env conn msg none s h = serve_unlistened-IsLost env conn msg _ s h
  serve_matched-IsLost env conn msg (some (l, captures)) s h =
      serve_listener-IsLost env conn msg l captures s h

  pub handle_http_message-IsLost :
      (env : Env) (conn : Connection) (msg : Message) (s : System)
      → IsLost ref s
      → Leaves (StillLost ref) (handle_http_message env conn msg s)
  unfolding handle_http_message
  handle_http_message-IsLost env conn msg s h =
      serve_matched-IsLost env conn msg
        (match_listener env msg.uri (env.listener_order.visit s.listeners)) s h
