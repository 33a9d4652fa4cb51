-- ===== src/Http/Endpoint/State.antt =====
-- The endpoint's members, the objects that it shares with the user's threads, and what it is given
-- from outside.
use mongoose_cpp.Prelude.{
  ℕ, Bool, false, List, [], ◌∷◌, ◌++◌, Option, none, some, Bytes, ℤ, get_elem?, set,
}
use mongoose_cpp.Table.{Table}
use mongoose_cpp.Table.Order.{Order}
use mongoose_cpp.Mongoose.{MgCall, MgStr, null_str, Wakeup, Signal, Outcome, ok, fault, null_deref}
use mongoose_cpp.Http.Headers.{Entry}
use mongoose_cpp.Http.Headers.Laws.{Write, apply}
use mongoose_cpp.Http.AsyncStream
use mongoose_cpp.Http.AsyncStream.{AsyncStream}
use mongoose_cpp.Http.AsyncResponse
use mongoose_cpp.Http.AsyncResponse.{AsyncResponse, stream as stream_response}
use mongoose_cpp.Http.Certificate.Tm.{Tm}
use mongoose_cpp.Http.Request.{Request}
use mongoose_cpp.Http.Response.{Action}

-- A call that a handler makes on its asynchronous response while it runs, with the answer to the
-- wake-up that the call asks for.
pub data AsyncAction : Type 0 where
  header : Write → AsyncAction
  send : ℤ → Bytes → Wakeup → AsyncAction
  stream : ℤ → Bytes → Wakeup → AsyncAction

-- The user's function, by the kind of response that it takes.
pub data Callback : Type 0 where
  sync : (Request → List Action) → Callback
  async : (Request → List AsyncAction) → Callback

-- `lambda_http_listener` of include/mgxx/http/listener.hpp.
pub record Listener : Type 0 where
  pub groups : ℕ
  pub callback : Callback

-- `asset` of include/mgxx/http/internal/asset.hpp.
pub record Asset : Type 0 where
  pub is_dir : Bool
  pub path : Bytes
  pub mime_type : Bytes
  pub headers : Bytes

-- The pending maps hold the places of shared objects; the pointer to a stream may be null.
abbrev pub Responses : Type 0
Responses = Table ℕ ℕ

abbrev pub Streams : Type 0
Streams = Table ℕ (Option ℕ)

pub record Endpoint : Type 0 where
  pub tls_ca : MgStr
  pub tls_cert : MgStr
  pub tls_key : MgStr
  pub tls_alloc : Bool
  pub assets : Table Bytes Asset
  pub listeners : Table Bytes Listener
  pub fallback : Option Listener
  pub request_counter : ℕ
  pub pending_responses : Table ℕ Responses
  pub pending_streams : Table ℕ Streams

-- The endpoint, all asynchronous responses and streams ever made, the calls of mongoose so far, and
-- the wake-ups posted so far.
pub record System : Type 0 where
  pub endpoint : Endpoint
  pub open endpoint use *
  pub responses : List AsyncResponse
  pub streams : List AsyncStream
  pub calls : List MgCall
  pub signals : List Signal

-- What the endpoint is given from outside. `mg_match uri pattern` is the captures of a match,
-- `io_size` is MG_IO_SIZE, `send_len_after` how much a send buffer holds after some calls; the orders are those in which the loops visit the maps.
pub record Env : Type 0 where
  pub mg_match : Bytes → Bytes → Option (List Bytes)
  pub io_size : ℕ
  pub send_len_after : ℕ → List MgCall → ℕ
  pub inet_ntop : Bool → Bytes → Bytes
  pub ntohs : ℕ → ℕ
  pub timegm : Tm → ℤ
  pub header_order : Order Entry
  pub listener_order : Order (Bytes × Listener)
  pub asset_order : Order (Bytes × Asset)

unfoldable pub new : Endpoint
new = record {
  tls_ca = null_str;
  tls_cert = null_str;
  tls_key = null_str;
  tls_alloc = false;
  assets = [];
  listeners = [];
  fallback = none;
  request_counter = 0;
  pending_responses = [];
  pending_streams = [];
}

unfoldable pub boot : Endpoint → System
boot e = record { endpoint = e; responses = []; streams = []; calls = []; signals = [] }

-- `response->…` and `stream->…` through a shared pointer.
unfoldable pub deref_response : System → ℕ → Outcome AsyncResponse
deref_response s ref = elim (get_elem? s.responses ref) [ none ↦ fault null_deref | some r ↦ ok r ]

unfoldable pub deref_stream : System → Option ℕ → Outcome AsyncStream
deref_stream s none = fault null_deref
deref_stream s (some ref) = elim (get_elem? s.streams ref) [
  | none ↦ fault null_deref
  | some x ↦ ok x
]

unfoldable pub put_response : System → ℕ → AsyncResponse → System
put_response s ref r = record s { responses = set s.responses ref r }

unfoldable pub put_stream : System → Option ℕ → AsyncStream → System
put_stream s none x = s
put_stream s (some ref) x = record s { streams = set s.streams ref x }

unfoldable pub emit : System → MgCall → System
emit s call = record s { calls = s.calls ++ call ∷ [] }

-- The user's calls on a shared response, from a handler or from any thread.
unfoldable pub act : Env → System → ℕ → AsyncResponse → AsyncAction → System
act env s ref r (header w) = record s {
  responses = set s.responses ref (record r { headers = apply r.headers w });
}
act env s ref r (send code body answer) =
    let (r', posted) = AsyncResponse.send env.header_order r code body answer in
    record s { responses = set s.responses ref r'; signals = s.signals ++ posted }
act env s ref r (stream code encoding answer) =
    let done = stream_response env.header_order r s.streams code encoding answer in
    record s {
      responses = set s.responses ref done.response;
      streams = done.streams;
      signals = s.signals ++ done.signals;
    }

unfoldable pub user_action : Env → System → ℕ → AsyncAction → System
unfolding act
user_action env s ref a = elim (get_elem? s.responses ref) [ none ↦ s | some r ↦ act env s ref r a ]

unfoldable pub user_actions : Env → System → ℕ → List AsyncAction → System
unfolding user_action
user_actions env s ref [] = s
user_actions env s ref (a ∷ rest) = user_actions env (user_action env s ref a) ref rest

-- The producer's calls on a shared stream.
unfoldable pub stream_send : System → ℕ → Bytes → Wakeup → System
stream_send s ref body answer = elim (get_elem? s.streams ref) [
  | none ↦ s
  | some x ↦
      let (x', posted) = AsyncStream.send x body answer in
      record s { streams = set s.streams ref x'; signals = s.signals ++ posted }
]

unfoldable pub stream_close : System → ℕ → Wakeup → System
stream_close s ref answer = elim (get_elem? s.streams ref) [
  | none ↦ s
  | some x ↦
      let (x', posted) = AsyncStream.close x answer in
      record s { streams = set s.streams ref x'; signals = s.signals ++ posted }
]
