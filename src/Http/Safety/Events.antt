-- ===== src/Http/Safety/Events.antt =====
-- Every event that mongoose delivers is served without a bad pointer.
use mongoose_cpp.Prelude.{
  ◌==◌, ◌≡◌, refl, ◌∙◌, ap, false, ◌||◌, not, ◌++◌, ℤ, arith, Bool-cases, ◌⊎◌, inl, inr,
}
use mongoose_cpp.Mongoose.{Outcome, ok, fault, bad_cast, ◌>>=◌}
use mongoose_cpp.Http.Connection.{
  Connection, FnData, Handler, context, endpoint, event_manager_handler,
  event_manager_context_handler, pump_stream,
}
use mongoose_cpp.Http.Endpoint.Message.{context_of}
use mongoose_cpp.Http.Certificate.Tm.{Tm}
use mongoose_cpp.Http.Certificate.Peer.{Peer}
use mongoose_cpp.Http.Headers.{is_empty}
use mongoose_cpp.Http.Endpoint.State.{System, Env}
use mongoose_cpp.Http.Endpoint.Events.{
  Event, accept, poll, write, close, other, tls_hs, http_msg, wakeup, handle, handle_poll,
  handle_write, handle_close, promote_context, setup_context, setup, dispatch,
}
use mongoose_cpp.Http.Endpoint.Tls.{handle_secure}
use mongoose_cpp.Http.Safety.Valid.{Keeps-refl}
use mongoose_cpp.Http.Safety.Inv.{Inv, Inv-store}
use mongoose_cpp.Http.Safety.Wakeup.{handle_wakeup-Inv}
use mongoose_cpp.Http.Safety.Serving.{Safe, emit-Inv}
use mongoose_cpp.Http.Safety.Message.{
  CapturesFit, IsPromoted, SafeEvent, context_of_lem, handle_http_message-Inv,
}
use mongoose_cpp.Http.Safety.Poll.{handle_poll-Inv}
use mongoose_cpp.Http.Safety.Loops.{pump_pending-Inv}
use mongoose_cpp.Http.Safety.Close.{IsMarkedRight, handle_close-Inv}

-- A listening connection, or one that was not accepted yet.
pub record IsNew (conn : Connection) : Type 0 where
  pub held : conn.fn_data ≡ endpoint
  pub handler : conn.fn ≡ event_manager_handler
  pub unmarked : (conn.tag == b'R') ≡ false

-- A connection between two events: new, with its context, or closed.
abbrev pub IsGood : Connection → Type 0
IsGood conn = IsNew conn ⊎ (IsPromoted conn ⊎ ((conn.tag == b'R') ≡ false))

-- The events of a connection that was not accepted yet, and those of one that was.
abbrev pub IsEarly : Event → Type 0
IsEarly accept = Unit
IsEarly poll = Unit
IsEarly close = Unit
IsEarly other = Unit
IsEarly (wakeup id) = Unit
IsEarly _ = ⊥

abbrev pub IsLate : Event → Type 0
IsLate accept = ⊥
IsLate _ = Unit

-- The order that mongoose documents: an accepted connection gets its other events after `accept`, and
-- none after `close`.
pub data Delivers (conn : Connection) (ev : Event) : Type 0 where
  early : conn.fn ≡ event_manager_handler → IsNew conn → IsEarly ev → Delivers conn ev
  late : conn.tag ≡ b'R' → IsLate ev → Delivers conn ev

-- The event is served: the invariant holds, and the connection is good.
abbrev pub Served : Outcome (Connection × System) → Type 0
Served m = (r : Connection × System) × (m ≡ ok r) × IsGood r.0 × Inv r.1

serve_plain :
    (conn : Connection) (m : Outcome System)
    → IsGood conn
    → Safe m
    → Served (m >>= λ s. ok (conn, s))
serve_plain conn m good (s, e, v) = ((conn, s), rw e, good, v)

handle_secure-Inv : (conn : Connection) (s : System) → Inv s → Inv (handle_secure conn s)
unfolding handle_secure
handle_secure-Inv conn s v =
    elim (Bool-cases ((not conn.is_tls || is_empty s.tls_cert.bytes) || is_empty s.tls_key.bytes)) [
      | inl p ↦ rw p v
      | inr p ↦ rw p (emit-Inv s _ v)
    ]

promoted : (env : Env) (conn : Connection) → IsPromoted (promote_context env conn)
unfolding promote_context
promoted env conn = record { remote = _; held = refl; handler = refl; marked = refl }

pub handle_write-Inv :
    (env : Env) (conn : Connection) (s : System)
    → IsPromoted conn
    → Inv s
    → SafeEvent (handle_write env conn s)
unfolding handle_write
handle_write-Inv env conn s p v =
    let pumped = pump_stream env.io_size conn.id conn.send_len p.remote in
    let s1 = record s { calls = s.calls ++ pumped.0 } in
    let (t, e, w) =
      pump_pending-Inv env.io_size (env.send_len_after conn.send_len pumped.0) s1
        (Inv-store s s.responses s.streams _ s.signals v (Keeps-refl s.streams) (λ ref c i h. h)) in
    (
      (record conn { fn_data = context pumped.1 }, t),
      rw (context_of_lem conn p.remote p.held) (rw e),
      record { remote = pumped.1; held = refl; handler = p.handler; marked = p.marked },
      w,
    )

setup_context-good :
    (timegm : Tm → ℤ) (conn : Connection) (peer : Peer)
    → IsPromoted conn
    → (c : Connection) × (setup_context timegm conn peer ≡ ok c) × IsPromoted c
unfolding setup_context
setup_context-good timegm conn peer p = (
  record conn { fn_data = context (setup timegm p.remote peer) },
  rw (context_of_lem conn p.remote p.held),
  record {
    remote = setup timegm p.remote peer;
    held = refl;
    handler = p.handler;
    marked = p.marked;
  },
)

Served-of_safe : (m : Outcome (Connection × System)) → SafeEvent m → Served m
Served-of_safe m (r, e, p, v) = (r, e, inr (inl p), v)

Served-close :
    (conn : Connection) (s : System) → IsMarkedRight conn → Inv s → Served (handle_close conn s)
Served-close conn s marked v =
    let (r, e, unmarked, w) = handle_close-Inv conn s marked v in (r, e, inr (inr unmarked), w)

-- An event of an accepted connection.
handle_late :
    (env : Env) (conn : Connection) (ev : Event) (s : System)
    → CapturesFit env
    → IsLate ev
    → IsPromoted conn
    → Inv s
    → Served (handle env conn ev s)
unfolding handle
handle_late env conn accept s fit l p v = elim l [ ]
handle_late env conn poll s fit l p v =
    serve_plain conn (handle_poll conn.id s) (inr (inl p)) (handle_poll-Inv conn.id s v)
handle_late env conn write s fit l p v =
    Served-of_safe (handle_write env conn s) (handle_write-Inv env conn s p v)
handle_late env conn close s fit l p v = Served-close conn s (λ _. (p.remote, p.held)) v
handle_late env conn other s fit l p v = ((conn, s), refl, inr (inl p), v)
handle_late env conn (tls_hs peer) s fit l p v =
    let (c, e, good) = setup_context-good env.timegm conn peer p in
    ((c, s), rw e, inr (inl good), v)
handle_late env conn (http_msg msg) s fit l p v =
    Served-of_safe _ (handle_http_message-Inv env conn msg s fit p v)
handle_late env conn (wakeup id) s fit l p v =
    serve_plain conn _ (inr (inl p)) (handle_wakeup-Inv conn.id id s v)

-- An event of a connection that is not accepted yet.
handle_early :
    (env : Env) (conn : Connection) (ev : Event) (s : System)
    → IsEarly ev
    → IsNew conn
    → Inv s
    → Served (handle env conn ev s)
unfolding handle
handle_early env conn accept s l n v =
    ((_, _), refl, inr (inl (promoted env conn)), handle_secure-Inv conn s v)
handle_early env conn poll s l n v = serve_plain conn _ (inl n) (handle_poll-Inv conn.id s v)
handle_early env conn write s l n v = elim l [ ]
handle_early env conn close s l n v = Served-close conn s (λ h. cc (h, n.unmarked)) v
handle_early env conn other s l n v = ((conn, s), refl, inl n, v)
handle_early env conn (tls_hs peer) s l n v = elim l [ ]
handle_early env conn (http_msg msg) s l n v = elim l [ ]
handle_early env conn (wakeup id) s l n v =
    serve_plain conn _ (inl n) (handle_wakeup-Inv conn.id id s v)

pub promoted_of_mark : (conn : Connection) → conn.tag ≡ b'R' → IsGood conn → IsPromoted conn
promoted_of_mark conn e (inl n) = ground (arith, n.unmarked)
promoted_of_mark conn e (inr (inl p)) = p
promoted_of_mark conn e (inr (inr h)) = ground arith

-- Both functions that mongoose calls end in `handle`.
pub dispatch-handle :
    (env : Env) (conn : Connection) (ev : Event) (s : System)
    → IsGood conn
    → Delivers conn ev
    → dispatch env conn ev s ≡ handle env conn ev s
unfolding dispatch
dispatch-handle env conn ev s good (early h n l) =
    ap (called conn.fn_data) h ∙ ap (λ d. called d event_manager_handler) n.held
  where
    called : FnData → Handler → Outcome (Connection × System)
    called d fn = elim fn [
      | event_manager_handler ↦ (elim d [
        | FnData.endpoint ↦ handle env conn ev s
        | _ ↦ fault bad_cast
      ])
      | event_manager_context_handler ↦ context_of conn >>= λ c. handle env conn ev s
    ]
dispatch-handle env conn ev s good (late m l) =
    let p = promoted_of_mark conn m good in
    ap called p.handler
    ∙ ap (λ k. k >>= λ c. handle env conn ev s) (context_of_lem conn p.remote p.held)
  where
    called : Handler → Outcome (Connection × System)
    called fn = elim fn [
      | event_manager_handler ↦ (elim conn.fn_data [
        | FnData.endpoint ↦ handle env conn ev s
        | _ ↦ fault bad_cast
      ])
      | event_manager_context_handler ↦ context_of conn >>= λ c. handle env conn ev s
    ]

-- Where the invariant holds and a match never makes more captures than its pattern has wildcards, an
-- event that mongoose delivers to a good connection is served through the function that the
-- connection names, without a bad cast, a null pointer or a write past an array; the invariant holds
-- afterwards, and the connection is good again.
pub dispatch-Served :
    (env : Env) (conn : Connection) (ev : Event) (s : System)
    → CapturesFit env
    → IsGood conn
    → Delivers conn ev
    → Inv s
    → Served (dispatch env conn ev s)
unfolding dispatch
dispatch-Served env conn ev s fit good (early h n l) v =
    rw (h, dispatch) (rw n.held (handle_early env conn ev s l n v))
dispatch-Served env conn ev s fit good (late m l) v =
    let p = promoted_of_mark conn m good in
    rw (p.handler, dispatch)
      (rw (context_of_lem conn p.remote p.held) (handle_late env conn ev s fit l p v))
