-- ===== src/Tests/Samples.antt =====
-- The inputs of the tests: an endpoint's surroundings, connections, and systems with one pending
-- response or stream.
use mongoose_cpp.Prelude.{
  ℕ, false, List, [], ◌∷◌, Option, none, some, Bytes, codes, negsuc, bytes_eq, if◌then◌else◌,
}
use mongoose_cpp.Table.Order.{insertion_order}
use mongoose_cpp.Mongoose.{null_str}
use mongoose_cpp.Http.Headers.{Headers}
use mongoose_cpp.Http.AsyncStream.{AsyncStream}
use mongoose_cpp.Http.AsyncStream.State.{StreamState}
use mongoose_cpp.Http.AsyncResponse.{AsyncResponse}
use mongoose_cpp.Http.AsyncResponse.State.{ResponseState}
use mongoose_cpp.Http.Connection.{
  Connection, FnData, RemoteContext, event_manager_handler, event_manager_context_handler, Handler,
}
use mongoose_cpp.Http.Endpoint.State.{Env, System, Responses, Streams}

-- Patterns without captures, that match themselves.
abbrev pub exact_match : Bytes → Bytes → Option (List Bytes)
exact_match uri pattern' = if bytes_eq uri pattern' then some [] else none

abbrev pub sample_env : Env
sample_env = record {
  mg_match = exact_match;
  io_size = 2048;
  send_len_after = λ len calls. len;
  inet_ntop = λ is_ip6 ip. codes "127.0.0.1";
  ntohs = λ port. port;
  timegm = λ t. t.tm_sec;
  header_order = insertion_order;
  listener_order = insertion_order;
  asset_order = insertion_order;
}

abbrev pub sample_context : RemoteContext
sample_context = record { ip = codes "127.0.0.1:80"; tls_cert = none; stream = none }

abbrev pub connection_with : Handler → FnData → ℕ → Connection
connection_with handler held tag = record {
  id = 7;
  is_tls = false;
  rem = record { is_ip6 = false; ip = 127 ∷ 0 ∷ 0 ∷ 1 ∷ []; port = 80 };
  send_len = 0;
  fn = handler;
  fn_data = held;
  tag = tag;
}

-- As mongoose accepts it, and with its context.
abbrev pub accepted : Connection
accepted = connection_with event_manager_handler FnData.endpoint 0

abbrev pub promoted : Connection
promoted = connection_with event_manager_context_handler (FnData.context sample_context) b'R'

abbrev pub sample_headers : Headers
sample_headers = (codes "X-Id", codes "1") ∷ (codes "Content-Length", codes "5") ∷ []

abbrev pub sample_response : ResponseState → Option ℕ → AsyncResponse
sample_response state stream = record {
  conn = 7;
  id = 0;
  headers = sample_headers;
  payload = record { code = negsuc 0; headers = []; body = [] };
  state = state;
  stream = stream;
}

abbrev pub sample_stream : StreamState → AsyncStream
sample_stream state = record { conn = 7; id = 0; bytes = codes "some bytes"; state = state }

-- A system with these objects, whose pending ones are given.
abbrev pub system_with :
    List AsyncResponse → List AsyncStream → List (ℕ × Responses) → List (ℕ × Streams) → System
system_with responses streams pending_responses pending_streams = record {
  endpoint = record {
    tls_ca = null_str;
    tls_cert = null_str;
    tls_key = null_str;
    tls_alloc = false;
    assets = [];
    listeners = [];
    fallback = none;
    request_counter = 1;
    pending_responses = pending_responses;
    pending_streams = pending_streams;
  };
  responses = responses;
  streams = streams;
  calls = [];
  signals = [];
}

-- One response on connection 7 under the number 0, which waits for its answer.
abbrev pub one_response : ResponseState → System
one_response state = system_with (sample_response state none ∷ []) [] ((7, (0, 0) ∷ []) ∷ []) []

-- The same, which streams, and whose stream has not started.
abbrev pub one_streaming : System
one_streaming =
    system_with (sample_response ResponseState.streaming (some 0) ∷ [])
      (sample_stream StreamState.start ∷ []) ((7, (0, 0) ∷ []) ∷ []) []

-- One pending stream.
abbrev pub one_stream : StreamState → System
one_stream state = system_with [] (sample_stream state ∷ []) [] ((7, (0, some 0) ∷ []) ∷ [])
