-- ===== src/Http/Isolation/Dispatch.antt =====
-- All events together, through the two functions that mongoose calls.
use mongoose_cpp.Prelude.{◌==◌, ℕ, ◌≡◌, refl, ap, ℤ, false, ◌++◌, not, ◌||◌, Bool-cases, inl, inr}
use mongoose_cpp.Mongoose.{Outcome, ok, fault, bad_cast, ◌>>=◌}
use mongoose_cpp.Http.Connection.{
  Connection, FnData, Handler, event_manager_handler, event_manager_context_handler, pump_stream,
}
use mongoose_cpp.Http.Certificate.Tm.{Tm}
use mongoose_cpp.Http.Certificate.Peer.{Peer}
use mongoose_cpp.Http.Headers.{is_empty}
use mongoose_cpp.Http.Endpoint.State.{System, Env}
use mongoose_cpp.Http.Endpoint.Tls.{handle_secure}
use mongoose_cpp.Http.Endpoint.Message.{context_of}
use mongoose_cpp.Http.Endpoint.Wakeup.Lookup.{find_at}
use mongoose_cpp.Http.Endpoint.Events.{
  Event, accept, poll, write, close, other, tls_hs, http_msg, wakeup, handle, handle_write,
  handle_poll, pump_all, setup_context, dispatch,
}
use mongoose_cpp.Http.Endpoint.Wakeup.{handle_wakeup}
use mongoose_cpp.Http.Safety.Events.{IsEarly}
use mongoose_cpp.Http.Isolation.{
  Leaves, Leaves-bind, Leaves-weaken, Leaves-any, Leaves-ok, IsIdle, Stays, Stays-same,
}
use mongoose_cpp.Http.Isolation.Wakeup.{emit-Stays, handle_wakeup-Stays, handle_poll-Stays}
use mongoose_cpp.Http.Isolation.Message.{Kept, handle_http_message-Kept}
use mongoose_cpp.Http.Isolation.Events.{Spares, pump_all-endpoint, handle_close-Spares}

-- A handler that does not see the connection itself.
plain-Kept :
    (conn : Connection) (s : System) (m : Outcome System)
    → Leaves (Stays conn.id s) m
    → Leaves (Kept conn s) (m >>= λ t. ok (conn, t))
plain-Kept conn s m h =
    Leaves-bind (Stays conn.id s) (Kept conn s) m (λ t. ok (conn, t)) h (λ t k. (k.0, refl, refl))

handle_write-Kept :
    (env : Env) (conn : Connection) (s : System) → Leaves (Kept conn s) (handle_write env conn s)
unfolding handle_write
handle_write-Kept env conn s =
    Leaves-bind (λ _. Unit) (Kept conn s) (context_of conn) _ (Leaves-any (context_of conn))
      (λ c _.
        let pumped = pump_stream env.io_size conn.id conn.send_len c in
        let grown = env.send_len_after conn.send_len pumped.0 in
        let s1 : System = record s { calls = s.calls ++ pumped.0 } in
        Leaves-bind (λ (t : System). t.endpoint ≡ s.endpoint) (Kept conn s)
          (pump_all env.io_size grown s.pending_streams s1)
          (λ t. ok (record conn { fn_data = FnData.context pumped.1 }, t))
          (pump_all-endpoint env.io_size grown s.pending_streams s1)
          (λ t h. (
            (Stays-same conn.id s t (ap (λ e. e.pending_responses) h)
                (ap (λ e. e.pending_streams) h)).0,
            refl,
            refl,
          )))

setup_context-Kept :
    (timegm : Tm → ℤ) (conn : Connection) (peer : Peer) (s : System)
    → Leaves (Kept conn s) (setup_context timegm conn peer >>= λ c. ok (c, s))
unfolding setup_context
setup_context-Kept timegm conn peer s =
    Leaves-bind (λ (c : Connection). (c.id ≡ conn.id) × (c.tag ≡ conn.tag)) (Kept conn s)
      (setup_context timegm conn peer) (λ c. ok (c, s))
      (Leaves-bind (λ _. Unit) (λ (c : Connection). (c.id ≡ conn.id) × (c.tag ≡ conn.tag))
        (context_of conn) _ (Leaves-any (context_of conn)) (λ c _. (refl, refl)))
      (λ c h. (λ i id d. (refl, refl), h.0, h.1))

handle_secure-Stays : (conn : Connection) (s : System) → Stays conn.id s (handle_secure conn s)
unfolding handle_secure
handle_secure-Stays conn s =
    elim (Bool-cases ((not conn.is_tls || is_empty s.tls_cert.bytes) || is_empty s.tls_key.bytes)) [
      | inl p ↦ rw p (Stays-same conn.id s s refl refl)
      | inr p ↦ rw p (emit-Stays conn.id s _)
    ]

-- The events between the acceptance of a connection and its end.
abbrev pub IsOngoing : Event → Type 0
IsOngoing accept = ⊥
IsOngoing close = ⊥
IsOngoing _ = Unit

pub handle-Kept :
    (env : Env) (conn : Connection) (ev : Event) (s : System)
    → IsOngoing ev
    → Leaves (Kept conn s) (handle env conn ev s)
unfolding handle
handle-Kept env conn accept s h = elim h [ ]
handle-Kept env conn close s h = elim h [ ]
handle-Kept env conn poll s h = plain-Kept conn s _ (handle_poll-Stays conn.id s)
handle-Kept env conn write s h = handle_write-Kept env conn s
handle-Kept env conn other s h = (λ c id d. (refl, refl), refl, refl)
handle-Kept env conn (tls_hs peer) s h = setup_context-Kept env.timegm conn peer s
handle-Kept env conn (http_msg msg) s h = handle_http_message-Kept env conn msg s
handle-Kept env conn (wakeup id) s h = plain-Kept conn s _ (handle_wakeup-Stays conn.id id s)

Spares-of_Kept :
    (env : Env) (conn : Connection) (ev : Event) (s : System)
    → IsOngoing ev
    → Leaves (Spares conn s) (handle env conn ev s)
Spares-of_Kept env conn ev s h =
    Leaves-weaken (Kept conn s) (Spares conn s) (handle env conn ev s) (λ r k. k.0)
      (handle-Kept env conn ev s h)

handle-Spares :
    (env : Env) (conn : Connection) (ev : Event) (s : System)
    → Leaves (Spares conn s) (handle env conn ev s)
unfolding handle
handle-Spares env conn accept s = (handle_secure-Stays conn s).0
handle-Spares env conn close s = handle_close-Spares conn s
handle-Spares env conn poll s = Spares-of_Kept env conn poll s tt
handle-Spares env conn write s = Spares-of_Kept env conn write s tt
handle-Spares env conn other s = Spares-of_Kept env conn other s tt
handle-Spares env conn (tls_hs peer) s = Spares-of_Kept env conn (tls_hs peer) s tt
handle-Spares env conn (http_msg msg) s = Spares-of_Kept env conn (http_msg msg) s tt
handle-Spares env conn (wakeup id) s = Spares-of_Kept env conn (wakeup id) s tt

-- Where `dispatch` returns, it returns what `handle` does.
pub dispatch-Leaves :
    (P : Connection × System → Type 0) (env : Env) (conn : Connection) (ev : Event) (s : System)
    → Leaves P (handle env conn ev s)
    → Leaves P (dispatch env conn ev s)
unfolding dispatch
dispatch-Leaves P env conn ev s h = go conn.fn conn.fn_data
  where
    go :
        (fn : Handler) (d : FnData)
        → Leaves P (elim fn as (λ _. Outcome (Connection × System)) [
          | event_manager_handler ↦ (elim d as (λ _. Outcome (Connection × System)) [
            | FnData.endpoint ↦ handle env conn ev s
            | _ ↦ fault bad_cast
          ])
          | event_manager_context_handler ↦ context_of conn >>= λ c. handle env conn ev s
        ])
    go event_manager_handler FnData.null = tt
    go event_manager_handler FnData.endpoint = h
    go event_manager_handler (FnData.context c) = tt
    go event_manager_context_handler d =
        Leaves-bind (λ _. Unit) P (context_of conn) (λ c. handle env conn ev s)
          (Leaves-any (context_of conn)) (λ c _. h)

-- Whatever event of a connection is served, the responses and the streams that are pending under the
-- id of another connection are the same afterwards, under the same numbers.
pub dispatch-Apart :
    (env : Env) (conn : Connection) (ev : Event) (s : System) (r : Connection × System)
    → dispatch env conn ev s ≡ ok r
    → (c id : ℕ) → (conn.id == c) ≡ false
    → (find_at c id r.1.pending_responses ≡ find_at c id s.pending_responses)
      × (find_at c id r.1.pending_streams ≡ find_at c id s.pending_streams)
dispatch-Apart env conn ev s r e =
    Leaves-ok (Spares conn s) (dispatch env conn ev s) r e
      (dispatch-Leaves (Spares conn s) env conn ev s (handle-Spares env conn ev s))

-- An event of a connection that is not accepted yet, and that does not end it, brings nothing to be
-- pending.
pub handle-IsIdle :
    (env : Env) (conn : Connection) (ev : Event) (s : System)
    → IsEarly ev
    → IsIdle conn.id s
    → (ev ≡ close → ⊥)
    → Leaves (λ (r : Connection × System). IsIdle conn.id r.1) (handle env conn ev s)
unfolding handle
handle-IsIdle env conn accept s l idle h = (handle_secure-Stays conn s).1 idle
handle-IsIdle env conn poll s l idle h =
    Leaves-bind (Stays conn.id s) _ (handle_poll conn.id s) (λ t. ok (conn, t))
      (handle_poll-Stays conn.id s) (λ t k. k.1 idle)
handle-IsIdle env conn other s l idle h = idle
handle-IsIdle env conn close s l idle h = absurd (h refl)
handle-IsIdle env conn write s l idle h = elim l [ ]
handle-IsIdle env conn (tls_hs peer) s l idle h = elim l [ ]
handle-IsIdle env conn (http_msg msg) s l idle h = elim l [ ]
handle-IsIdle env conn (wakeup id) s l idle h =
    Leaves-bind (Stays conn.id s) _ (handle_wakeup conn.id id s) (λ t. ok (conn, t))
      (handle_wakeup-Stays conn.id id s) (λ t k. k.1 idle)
