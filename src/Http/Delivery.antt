-- ===== src/Http/Delivery.antt =====
-- An asynchronous request from its arrival to the delivery of its answer.
pub mod World
use mongoose_cpp.Prelude.{
  ◌+◌, ◌<◌, ◌≡◌, refl, ◌∙◌, false, [], ◌∷◌, ◌++◌, none, some, List, Bytes, ℤ, c_str, length,
  get_elem?-append_end, lt→ltb, ==_refl,
}
use mongoose_cpp.Table.Keys.{nat_key}
use mongoose_cpp.Table.Laws.{find-assign, assign-IsUnique}
use mongoose_cpp.Mongoose.{http_reply, ok, posted}
use mongoose_cpp.Http.Headers
use mongoose_cpp.Http.AsyncResponse
use mongoose_cpp.Http.Connection.{Connection, RemoteContext, context}
use mongoose_cpp.Http.Request
use mongoose_cpp.Http.Request.{Request, Message}
use mongoose_cpp.Http.Endpoint.State.{
  System, Env, Listener, AsyncAction, async, send, user_action, user_actions,
}
use mongoose_cpp.Http.Endpoint.Wakeup.{handle_wakeup, inner}
use mongoose_cpp.Http.Endpoint.Wakeup.Lookup.{find_at}
use mongoose_cpp.Http.Endpoint.Wakeup.Race.{send_then_wakeup}
use mongoose_cpp.Http.Endpoint.Message.{
  match_listener, fill, add_response, serve_listener, handle_http_message, invoke, serve_matched,
}
use mongoose_cpp.Http.Safety.Maps.{inner-IsUnique}
use mongoose_cpp.Http.Safety.Inv.{Inv}
use mongoose_cpp.Http.Safety.Message.{context_of_lem}

-- A request that an asynchronous listener takes, and whose handler makes no call yet.
invoked_silently :
    (env : Env) (conn : Connection) (msg : Message) (l : Listener) (captures : List Bytes)
    (callback : Request → List AsyncAction) (c : RemoteContext) (s : System)
    → l.callback ≡ async callback
    → length captures < l.groups + 1
    → callback (Request.new msg c (fill (l.groups + 1) captures)) ≡ []
    → conn.fn_data ≡ context c
    → serve_listener env conn msg l captures s ≡ ok (conn, add_response conn.id s)
unfolding serve_listener invoke user_actions
invoked_silently env conn msg l captures callback c s hl fits silent held =
    rw (lt→ltb (length captures) (l.groups + 1) fits)
      (rw (context_of_lem conn c held) (rw hl (rw silent)))

-- A request that an asynchronous listener takes, and whose handler returns without an answer, makes no
-- call on the connection; the answer that a thread sends on its response later, whose wake-up is
-- posted, goes out with that wake-up, as one reply with the code and the body, and the response is
-- not pending any more. The connection has its context, the invariant of the endpoint holds, the
-- captures fit the listener's groups, and no stream of the connection is pending under the number
-- that the request gets.
pub async_answer_delivered :
    (env : Env) (conn : Connection) (msg : Message) (l : Listener) (captures : List Bytes)
    (callback : Request → List AsyncAction) (c : RemoteContext) (s : System) (code : ℤ)
    (body : Bytes)
    → match_listener env msg.uri (env.listener_order.visit s.listeners) ≡ some (l, captures)
    → l.callback ≡ async callback
    → length captures < l.groups + 1
    → callback (Request.new msg c (fill (l.groups + 1) captures)) ≡ []
    → conn.fn_data ≡ context c
    → Inv s
    → find_at conn.id s.request_counter s.pending_streams ≡ none
    → (t : System) × (handle_http_message env conn msg s ≡ ok (conn, t))
      × (t.calls ≡ s.calls)
      × ((s' : System) × (handle_wakeup conn.id s.request_counter
              (user_action env t (length s.responses) (send code body posted))
            ≡ ok s')
          × (s'.calls
              ≡ s.calls
                ++ http_reply conn.id code (c_str (Headers.format env.header_order [] false 0)) body
                  ∷ [])
          × (find_at conn.id s.request_counter s'.pending_responses ≡ none))
unfolding handle_http_message add_response AsyncResponse.new
async_answer_delivered env conn msg l captures callback c s code body hm hl fits silent held v hs =
    let t = add_response conn.id s in
    let ref = length s.responses in
    let r = AsyncResponse.new conn.id s.request_counter in
    let mine = inner conn.id s.pending_responses in
    let (signals, (s', e, calls, done, gone)) =
      send_then_wakeup env t ref _ r code body hs
        (find-assign nat_key conn.id conn.id _ s.pending_responses ∙ rw (==_refl conn.id))
        (assign-IsUnique nat_key s.request_counter ref mine
          (inner-IsUnique conn.id s.pending_responses v.responses_unique))
        (find-assign nat_key s.request_counter s.request_counter ref mine
          ∙ rw (==_refl s.request_counter))
        (get_elem?-append_end s.responses r) refl in
    (
      t,
      rw (hm, serve_matched)
          (invoked_silently env conn msg l captures callback c s hl fits silent held),
      refl,
      (s', e, calls, gone),
    )
