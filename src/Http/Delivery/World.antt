-- ===== src/Http/Delivery/World.antt =====
-- The answer of a thread, in any world that an endpoint reaches, through the function that mongoose
-- calls.
use mongoose_cpp.Prelude.{
  ℕ, ◌<◌, ◌^◌, ◌≡◌, ◌∙◌, ap, sym, subst, true, false, [], ◌∷◌, ◌++◌, none, some, Bytes, ℤ, c_str,
  length, get_elem?,
}
use mongoose_cpp.Table.{find}
use mongoose_cpp.Table.Keys.{nat_key}
use mongoose_cpp.Mongoose.{http_reply, ok, posted, ◌>>=◌}
use mongoose_cpp.Http.Headers
use mongoose_cpp.Http.AsyncResponse.{AsyncResponse}
use mongoose_cpp.Http.AsyncResponse.State.{is_pending}
use mongoose_cpp.Http.Connection.{Connection}
use mongoose_cpp.Http.Endpoint.State.{System, Env, send, user_action}
use mongoose_cpp.Http.Endpoint.Events.{dispatch, handle, wakeup}
use mongoose_cpp.Http.Endpoint.Wakeup.{handle_wakeup}
use mongoose_cpp.Http.Endpoint.Wakeup.Lookup.{find_at, find_at-found}
use mongoose_cpp.Http.Endpoint.Wakeup.Race.{send_then_wakeup}
use mongoose_cpp.Http.Safety.Inv.{Inv}
use mongoose_cpp.Http.Safety.Message.{CapturesFit}
use mongoose_cpp.Http.Safety.Events.{late, dispatch-handle}
use mongoose_cpp.Http.Safety.Reach.{World, Reach, start, Reach-WorldInv}
use mongoose_cpp.Http.Numbers.World.{Reach-IsNumbered}
use mongoose_cpp.Http.Numbers.Names.{no_stream_yet}

-- An answer and its wake-up, on a system where no stream is pending under the number.
sent_and_woken :
    (env : Env) (s : System) (conn ref : ℕ) (r : AsyncResponse) (code : ℤ) (body : Bytes)
    → Inv s
    → find_at conn r.id s.pending_responses ≡ some ref
    → find_at conn r.id s.pending_streams ≡ none
    → get_elem? s.responses ref ≡ some r
    → is_pending r.state ≡ true
    → let sent = user_action env s ref (send code body posted) in
      (sent.signals ≡ s.signals ++ (conn, r.id) ∷ [])
      × ((s' : System) × (handle_wakeup conn r.id sent ≡ ok s')
          × (s'.calls
              ≡ s.calls
                ++ http_reply conn code
                    (c_str (Headers.format env.header_order r.headers false 0))
                    body
                  ∷ [])
          × (find_at conn r.id s'.pending_responses ≡ none))
sent_and_woken env s conn ref r code body v e idle h waits =
    let (t, p, found) = find_at-found conn r.id s.pending_responses e in
    let (q, hq, qc, _, _) = v.responses_valid conn r.id ref e in
    let place : r.conn ≡ conn = cc (h, hq, qc) in
    let (signals, (s', w, calls, _, gone)) =
      send_then_wakeup env s ref t r code body
        (subst (λ c. find_at c r.id s.pending_streams ≡ none) (sym place) idle)
        (subst (λ c. find nat_key c s.pending_responses ≡ some t) (sym place) p)
        (v.responses_unique conn t p) found h waits in
    (rw place at signals, (s', rw place at w, rw place at calls, rw place at gone))

-- In every world that a new endpoint reaches, while fewer than 2^64 asynchronous responses were made:
-- the answer that a thread sends on a response that is pending on an accepted connection, and that
-- waits for one, posts the wake-up of that connection and number; the event loop serves the wake-up
-- with one reply on the connection, with the code, the response's headers and the body, and the
-- response is not pending any more. The wake-up is posted, and served next.
pub pending_answer_delivered :
    (env : Env) {w : World} (i : ℕ) (conn : Connection) (ref : ℕ) (r : AsyncResponse) (code : ℤ)
    (body : Bytes)
    → CapturesFit env
    → Reach env start w
    → length w.system.responses < 2 ^ 64
    → get_elem? w.conns i ≡ some conn
    → conn.tag ≡ b'R'
    → find_at conn.id r.id w.system.pending_responses ≡ some ref
    → get_elem? w.system.responses ref ≡ some r
    → is_pending r.state ≡ true
    → let sent = user_action env w.system ref (send code body posted) in
      (sent.signals ≡ w.system.signals ++ (conn.id, r.id) ∷ [])
      × ((s' : System) × (dispatch env conn (wakeup r.id) sent ≡ ok (conn, s'))
          × (s'.calls
              ≡ w.system.calls
                ++ http_reply conn.id code
                    (c_str (Headers.format env.header_order r.headers false 0))
                    body
                  ∷ [])
          × (find_at conn.id r.id s'.pending_responses ≡ none))
unfolding handle
pending_answer_delivered env {w} i conn ref r code body fit reached small h accepted e hr waits =
    let v = Reach-WorldInv env fit reached in
    let idle =
      no_stream_yet w.system conn.id r.id ref r v.system_inv (Reach-IsNumbered env reached) small e
        hr waits in
    let (signals, (s', woken, calls, gone)) =
      sent_and_woken env w.system conn.id ref r code body v.system_inv e idle hr waits in
    let sent = user_action env w.system ref (send code body posted) in
    (
      signals,
      (
        s',
        dispatch-handle env conn (wakeup r.id) sent (v.conns_good i conn h) (late accepted tt)
            ∙ ap (λ m. m >>= λ s. ok (conn, s)) woken,
        calls,
        gone,
      ),
    )
