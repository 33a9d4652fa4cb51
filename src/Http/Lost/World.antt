-- ===== src/Http/Lost/World.antt =====
-- All events, and all steps of a world.
use mongoose_cpp.Prelude.{ℕ, subst, sym, not, ◌||◌, Bool-cases, inl, inr}
use mongoose_cpp.Mongoose.{Outcome, ok, ◌>>=◌}
use mongoose_cpp.Http.Headers.{is_empty}
use mongoose_cpp.Http.Connection.{Connection}
use mongoose_cpp.Http.Endpoint.State.{System, Env}
use mongoose_cpp.Http.Endpoint.Tls.{handle_secure}
use mongoose_cpp.Http.Endpoint.Events.{
  Event, accept, poll, write, close, other, tls_hs, http_msg, wakeup, handle, setup_context,
  dispatch,
}
use mongoose_cpp.Http.Safety.Setups.{setup_keeps}
use mongoose_cpp.Http.Safety.Reach.{
  World, Step, opens, drains, serves, sets_up, responds, sends, closes, Reach, here, next,
}
use mongoose_cpp.Http.Isolation.Dispatch.{dispatch-Leaves}
use mongoose_cpp.Http.Isolation.{Leaves, Leaves-bind, Leaves-any, Leaves-ok}
use mongoose_cpp.Http.Lost.{IsLost, IsAbsent, emit-IsLost}
use mongoose_cpp.Http.Lost.Users.{user_action-IsLost, stream_send-IsLost, stream_close-IsLost}
use mongoose_cpp.Http.Lost.Wakeup.{handle_wakeup-IsLost, handle_poll-IsLost}
use mongoose_cpp.Http.Lost.Events.{StillLost, handle_close-IsLost, handle_write-IsLost}
use mongoose_cpp.Http.Lost.Message.{handle_http_message-IsLost}

handle_secure-IsLost :
    (ref : ℕ) (conn : Connection) (s : System) → IsLost ref s → IsLost ref (handle_secure conn s)
unfolding handle_secure
handle_secure-IsLost ref conn s h =
    elim (Bool-cases ((not conn.is_tls || is_empty s.tls_cert.bytes) || is_empty s.tls_key.bytes)) [
      | inl p ↦ rw p h
      | inr p ↦ rw p (emit-IsLost s ref _ h)
    ]

plain :
    (ref : ℕ) (conn : Connection) (m : Outcome System)
    → Leaves (IsLost ref) m
    → Leaves (StillLost ref) (m >>= λ t. ok (conn, t))
plain ref conn m h = Leaves-bind (IsLost ref) (StillLost ref) m (λ t. ok (conn, t)) h (λ t k. k)

handle-IsLost :
    (ref : ℕ) (env : Env) (conn : Connection) (ev : Event) (s : System)
    → IsLost ref s
    → Leaves (StillLost ref) (handle env conn ev s)
unfolding handle
handle-IsLost ref env conn accept s h = handle_secure-IsLost ref conn s h
handle-IsLost ref env conn close s h = handle_close-IsLost ref conn s h
handle-IsLost ref env conn poll s h = plain ref conn _ (handle_poll-IsLost conn.id ref s h)
handle-IsLost ref env conn write s h = handle_write-IsLost ref env conn s h
handle-IsLost ref env conn other s h = h
handle-IsLost ref env conn (tls_hs peer) s h =
    Leaves-bind (λ _. Unit) (StillLost ref) (setup_context env.timegm conn peer) (λ c. ok (c, s))
      (Leaves-any (setup_context env.timegm conn peer)) (λ c _. h)
handle-IsLost ref env conn (http_msg msg) s h = handle_http_message-IsLost ref env conn msg s h
handle-IsLost ref env conn (wakeup id) s h =
    plain ref conn _ (handle_wakeup-IsLost conn.id id ref s h)

Step-IsLost :
    (ref : ℕ) (env : Env) {w u : World} → Step env w u → IsLost ref w.system → IsLost ref u.system
Step-IsLost ref env {w} (opens conn n) h = h
Step-IsLost ref env {w} (drains i len conn k) h = h
Step-IsLost ref env {w} (serves i conn ev r k d e) h =
    Leaves-ok (StillLost ref) (dispatch env conn ev w.system) r e (
      dispatch-Leaves (StillLost ref) env conn ev w.system
        (handle-IsLost ref env conn ev w.system h))
Step-IsLost ref env {w} (sets_up c) (f, a) =
    (f, subst (IsAbsent ref) (sym (setup_keeps env.header_order w.system.endpoint c).0) a)
Step-IsLost ref env {w} (responds k a) h = user_action-IsLost env w.system k ref a h
Step-IsLost ref env {w} (sends k body answer) h = stream_send-IsLost w.system k ref body answer h
Step-IsLost ref env {w} (closes k answer) h = stream_close-IsLost w.system k ref answer h

pub Reach-IsLost :
    (ref : ℕ) (env : Env) {w u : World} → Reach env w u → IsLost ref w.system → IsLost ref u.system
Reach-IsLost ref env here h = h
Reach-IsLost ref env (next r st) h = Step-IsLost ref env st (Reach-IsLost ref env r h)
