-- ===== src/Http/Endpoint/Events.antt =====
-- The other events of a connection, and the dispatch of all of them: handle_poll,
-- handle_write, handle_close, promote_context, setup_context and handle of src/http/endpoint.cpp,
-- and the two event handlers of src/server.cpp.
use mongoose_cpp.Prelude.{◌==◌, ℕ, ℤ, List, [], ◌∷◌, ◌++◌, none, some, if◌then◌else◌}
use mongoose_cpp.Table.{Table, find, assign, erase}
use mongoose_cpp.Table.Keys.{nat_key}
use mongoose_cpp.Mongoose.{MgCall, Outcome, ok, fault, bad_cast, ◌>>=◌}
use mongoose_cpp.Http.AsyncResponse
use mongoose_cpp.Http.AsyncResponse.{AsyncResponse}
use mongoose_cpp.Http.AsyncResponse.State.{is_failed}
use mongoose_cpp.Http.AsyncStream
use mongoose_cpp.Http.Connection.{
  Connection, FnData, RemoteContext, event_manager_handler, event_manager_context_handler,
  pump_stream, pump_async_stream, format_ip,
}
use mongoose_cpp.Http.Certificate.Tm.{Tm}
use mongoose_cpp.Http.Certificate.Peer.{Peer, setup_cert}
use mongoose_cpp.Http.Request.{Message}
use mongoose_cpp.Http.Endpoint.State.{
  System, Env, Responses, Streams, deref_response, deref_stream, put_response, put_stream,
}
use mongoose_cpp.Http.Endpoint.Tls.{handle_secure}
use mongoose_cpp.Http.Endpoint.Wakeup.{internal_server_error, handle_wakeup}
use mongoose_cpp.Http.Endpoint.Message.{handle_http_message, context_of}

-- The loop of `handle_poll` over one connection's responses: those that remain, and the replies.
-- All replies are alike, so the order of the loop does not show.
unfoldable pub poll_responses : ℕ → System → Responses → Outcome (Responses × List MgCall)
poll_responses conn s [] = ok ([], [])
poll_responses conn s ((id, ref) ∷ rest) = do
  r ← deref_response s ref
  polled ← poll_responses conn s rest
  ok (
      if is_failed r.state
      then (polled.0, internal_server_error conn ∷ polled.1)
      else ((id, ref) ∷ polled.0, polled.1))

unfoldable pub handle_poll : ℕ → System → Outcome System
unfolding poll_responses
handle_poll conn s = elim (find nat_key conn s.pending_responses) [
  | none ↦ ok s
  | some responses ↦ poll_responses conn s responses >>= λ polled. ok (record s {
    endpoint = record s.endpoint {
      pending_responses = assign nat_key conn polled.0 s.pending_responses;
    };
    calls = s.calls ++ polled.1;
  })
]

unfoldable pub promote_context : Env → Connection → Connection
promote_context env conn = record conn {
  fn = event_manager_context_handler;
  fn_data =
      FnData.context (record {
        ip = format_ip env.inet_ntop env.ntohs conn.rem;
        tls_cert = none;
        stream = none;
      });
  tag = b'R';
}

-- `peer` is what `conn->tls` leads to.
unfoldable pub setup : (Tm → ℤ) → RemoteContext → Peer → RemoteContext
unfolding setup_cert
setup timegm c peer = record c { tls_cert = setup_cert timegm peer c.tls_cert }

unfoldable pub setup_context : (Tm → ℤ) → Connection → Peer → Outcome Connection
unfolding context_of setup
setup_context timegm conn peer = do
  c ← context_of conn
  ok (record conn { fn_data = FnData.context (setup timegm c peer) })

-- The loop of `handle_write` over the streams of all connections. Each stream is changed by itself,
-- so the order of the loop does not show.
unfoldable pub pump_streams : ℕ → ℕ → Streams → System → Outcome System
pump_streams io_size send_len [] s = ok s
pump_streams io_size send_len ((id, ref) ∷ rest) s = do
  x ← deref_stream s ref
  pump_streams io_size send_len rest (put_stream s ref (pump_async_stream io_size send_len x))

unfoldable pub pump_all : ℕ → ℕ → Table ℕ Streams → System → Outcome System
unfolding pump_streams
pump_all io_size send_len [] s = ok s
pump_all io_size send_len ((conn, streams) ∷ rest) s = do
  t ← pump_streams io_size send_len streams s
  pump_all io_size send_len rest t

unfoldable pub handle_write : Env → Connection → System → Outcome (Connection × System)
unfolding context_of pump_all
handle_write env conn s = do
  c ← context_of conn
  let pumped = pump_stream env.io_size conn.id conn.send_len c
  let grown = env.send_len_after conn.send_len pumped.0
  t ← pump_all env.io_size grown s.pending_streams (record s { calls = s.calls ++ pumped.0 })
  ok (record conn { fn_data = FnData.context pumped.1 }, t)

-- `mark_failed` on each of a connection's responses and streams.
unfoldable pub fail_responses : Responses → System → Outcome System
fail_responses [] s = ok s
fail_responses ((id, ref) ∷ rest) s = do
  r ← deref_response s ref
  fail_responses rest (put_response s ref (AsyncResponse.mark_failed r))

unfoldable pub fail_streams : Streams → System → Outcome System
fail_streams [] s = ok s
fail_streams ((id, ref) ∷ rest) s = do
  x ← deref_stream s ref
  fail_streams rest (put_stream s ref (AsyncStream.mark_failed x))

unfoldable pub close_responses : ℕ → System → Outcome System
unfolding fail_responses
close_responses conn s = elim (find nat_key conn s.pending_responses) [
  | none ↦ ok s
  | some responses ↦ fail_responses responses s >>= λ t. ok (record t {
    endpoint = record t.endpoint { pending_responses = erase nat_key conn t.pending_responses };
  })
]

unfoldable pub close_streams : ℕ → System → Outcome System
unfolding fail_streams
close_streams conn s = elim (find nat_key conn s.pending_streams) [
  | none ↦ ok s
  | some streams ↦ fail_streams streams s >>= λ t. ok (record t {
    endpoint = record t.endpoint { pending_streams = erase nat_key conn t.pending_streams };
  })
]

-- The end of `handle_close`: the context is deleted where the connection is marked as having one.
unfoldable pub release_context : Connection → Outcome Connection
unfolding context_of
release_context conn =
    if conn.tag == b'R'
    then (do c ← context_of conn; ok (record conn { fn_data = FnData.null; tag = 0 }))
    else ok conn

unfoldable pub handle_close : Connection → System → Outcome (Connection × System)
unfolding close_responses close_streams release_context
handle_close conn s = do
  t ← close_responses conn.id s
  u ← close_streams conn.id t
  closed ← release_context conn
  ok (closed, u)

-- The events that the endpoint tells apart, with what `ev_data` carries.
pub data Event : Type 0 where
  accept poll write close other : Event
  tls_hs : Peer → Event
  http_msg : Message → Event
  wakeup : ℕ → Event

abbrev with_conn : Connection → Outcome System → Outcome (Connection × System)
with_conn conn m = m >>= λ s. ok (conn, s)

unfoldable pub handle : Env → Connection → Event → System → Outcome (Connection × System)
unfolding promote_context handle_secure setup_context
handle env conn accept s = ok (promote_context env conn, handle_secure conn s)
handle env conn poll s = with_conn conn (handle_poll conn.id s)
handle env conn (tls_hs peer) s = setup_context env.timegm conn peer >>= λ c. ok (c, s)
handle env conn (http_msg msg) s = handle_http_message env conn msg s
handle env conn (wakeup id) s = with_conn conn (handle_wakeup conn.id id s)
handle env conn write s = handle_write env conn s
handle env conn close s = handle_close conn s
handle env conn other s = ok (conn, s)

-- The functions that mongoose calls cast `fn_data` to an endpoint or to a context.
unfoldable pub dispatch : Env → Connection → Event → System → Outcome (Connection × System)
unfolding handle
dispatch env conn ev s = elim conn.fn [
  | event_manager_handler ↦ (elim conn.fn_data [
    | FnData.endpoint ↦ handle env conn ev s
    | _ ↦ fault bad_cast
  ])
  | event_manager_context_handler ↦ context_of conn >>= λ c. handle env conn ev s
]
