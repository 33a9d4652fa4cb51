-- ===== src/Http/Numbers/World.antt =====
-- The numbers in every world that an endpoint reaches.
use mongoose_cpp.Prelude.{◌≡◌, refl, [], ◌∷◌, List, Bytes, not, ◌||◌, Bool-cases, inl, inr}
use mongoose_cpp.Mongoose.{Outcome, ok, ◌>>=◌}
use mongoose_cpp.Http.Headers.{Entry, is_empty}
use mongoose_cpp.Table.Order.{Order}
use mongoose_cpp.Http.Connection.{Connection}
use mongoose_cpp.Http.Endpoint.State.{
  System, Env, Endpoint, emit, boot, new, stream_send, stream_close,
}
use mongoose_cpp.Http.Endpoint.Register.{
  on_request, on_async_request, on_fallback, on_async_fallback, on_asset, on_assets, on_assets_pair,
}
use mongoose_cpp.Http.Endpoint.Tls.{handle_secure, UseTls, use_tls_call}
use mongoose_cpp.Http.Endpoint.Events.{
  handle_close, handle_write, Event, accept, poll, write, close, other, tls_hs, http_msg, wakeup,
  handle, setup_context, dispatch,
}
use mongoose_cpp.Http.Safety.Setups.{
  Setup, requests, async_requests, fallback, async_fallback, asset, assets, tls, apply_setup,
}
use mongoose_cpp.Http.Safety.Reach.{
  World, Step, opens, drains, serves, sets_up, responds, sends, closes, Reach, here, next, start,
}
use mongoose_cpp.Http.Isolation.Dispatch.{dispatch-Leaves}
use mongoose_cpp.Http.Isolation.{Leaves, Leaves-bind, Leaves-weaken, Leaves-any, Leaves-ok}
use mongoose_cpp.Http.Numbers.{
  Settles-refl, IsNumbered, Unnumbered, Renumbers, Unnumbered-Renumbers,
}
use mongoose_cpp.Http.Numbers.Users.{
  user_action-Renumbers, stream_send-Unnumbered, stream_close-Unnumbered,
}
use mongoose_cpp.Http.Numbers.Wakeup.{handle_wakeup-Unnumbered, handle_poll-Unnumbered}
use mongoose_cpp.Http.Numbers.Events.{Counts, handle_close-Counts, handle_write-Counts}
use mongoose_cpp.Http.Numbers.Message.{Recounts, handle_http_message-Recounts}

handle_secure-Unnumbered : (conn : Connection) (s : System) → Unnumbered s (handle_secure conn s)
unfolding handle_secure emit
handle_secure-Unnumbered conn s =
    elim (Bool-cases ((not conn.is_tls || is_empty s.tls_cert.bytes) || is_empty s.tls_key.bytes)) [
      | inl p ↦ rw p (refl, refl, refl, Settles-refl s.responses)
      | inr p ↦ rw p (refl, refl, refl, Settles-refl s.responses)
    ]

quiet :
    (s : System) (m : Outcome (Connection × System)) → Leaves (Counts s) m → Leaves (Recounts s) m
quiet s m = Leaves-weaken (Counts s) (Recounts s) m (λ r. Unnumbered-Renumbers s r.1)

plain :
    (conn : Connection) (s : System) (m : Outcome System)
    → Leaves (Unnumbered s) m
    → Leaves (Recounts s) (m >>= λ t. ok (conn, t))
plain conn s m h =
    quiet s (m >>= λ t. ok (conn, t))
      (Leaves-bind (Unnumbered s) (Counts s) m (λ t. ok (conn, t)) h (λ t k. k))

handle-Recounts :
    (env : Env) (conn : Connection) (ev : Event) (s : System)
    → Leaves (Recounts s) (handle env conn ev s)
unfolding handle
handle-Recounts env conn accept s =
    Unnumbered-Renumbers s (handle_secure conn s) (handle_secure-Unnumbered conn s)
handle-Recounts env conn close s = quiet s (handle_close conn s) (handle_close-Counts conn s)
handle-Recounts env conn poll s = plain conn s _ (handle_poll-Unnumbered conn.id s)
handle-Recounts env conn write s =
    quiet s (handle_write env conn s) (handle_write-Counts env conn s)
handle-Recounts env conn other s = λ h. h
handle-Recounts env conn (tls_hs peer) s =
    Leaves-bind (λ _. Unit) (Recounts s) (setup_context env.timegm conn peer) (λ c. ok (c, s))
      (Leaves-any (setup_context env.timegm conn peer)) (λ c _ h. h)
handle-Recounts env conn (http_msg msg) s = handle_http_message-Recounts env conn msg s
handle-Recounts env conn (wakeup id) s = plain conn s _ (handle_wakeup-Unnumbered conn.id id s)

assets_counter :
    (e : Endpoint) (pairs : List (Bytes × Bytes))
    → (on_assets e pairs).request_counter ≡ e.request_counter
unfolding on_assets
assets_counter e [] = refl
assets_counter e ((path, dir) ∷ pairs) = assets_counter (on_assets_pair e path dir) pairs

use_counter :
    (e : Endpoint) (call : UseTls) → (use_tls_call e call).request_counter ≡ e.request_counter
unfolding use_tls_call
use_counter e (UseTls.tls cert key) = refl
use_counter e (UseTls.mtls ca cert key) = refl
use_counter e (UseTls.tls_view cert key) = refl
use_counter e (UseTls.mtls_view ca cert key) = refl

-- Setting the endpoint up counts nothing.
setup_counter :
    (o : Order Entry) (e : Endpoint) (c : Setup)
    → (apply_setup o e c).request_counter ≡ e.request_counter
unfolding apply_setup on_request on_async_request on_fallback on_async_fallback on_asset
setup_counter o e (requests path callback) = refl
setup_counter o e (async_requests path callback) = refl
setup_counter o e (fallback callback) = refl
setup_counter o e (async_fallback callback) = refl
setup_counter o e (asset path file mime_type headers) = refl
setup_counter o e (assets pairs) = assets_counter e pairs
setup_counter o e (tls call) = use_counter e call

Step-Renumbers : (env : Env) {w u : World} → Step env w u → Renumbers w.system u.system
Step-Renumbers env {w} (opens conn n) = λ h. h
Step-Renumbers env {w} (drains i len conn h) = λ k. k
Step-Renumbers env {w} (serves i conn ev r h d e) =
    Leaves-ok (Recounts w.system) (dispatch env conn ev w.system) r e (
      dispatch-Leaves (Recounts w.system) env conn ev w.system
        (handle-Recounts env conn ev w.system))
Step-Renumbers env {w} (sets_up c) =
    let e = apply_setup env.header_order w.system.endpoint c in
    Unnumbered-Renumbers w.system (record w.system { endpoint = e })
      (
        setup_counter env.header_order w.system.endpoint c,
        refl,
        refl,
        Settles-refl w.system.responses,
      )
Step-Renumbers env {w} (responds ref a) = user_action-Renumbers env w.system ref a
Step-Renumbers env {w} (sends ref body answer) =
    Unnumbered-Renumbers w.system (stream_send w.system ref body answer)
      (stream_send-Unnumbered w.system ref body answer)
Step-Renumbers env {w} (closes ref answer) =
    Unnumbered-Renumbers w.system (stream_close w.system ref answer)
      (stream_close-Unnumbered w.system ref answer)

start-IsNumbered : IsNumbered start.system
unfolding start boot new
start-IsNumbered = ((refl, λ i tag h. cc), λ k tag h. cc)

pub Reach-IsNumbered : (env : Env) {w : World} → Reach env start w → IsNumbered w.system
Reach-IsNumbered env here = start-IsNumbered
Reach-IsNumbered env (next r st) = Step-Renumbers env st (Reach-IsNumbered env r)
