-- ===== src/Http/AsyncResponse.antt =====
-- The asynchronous response, shared by the user's threads and the event loop: class async_response
-- of include/mgxx/http/async_response.hpp and src/http/async_response.cpp. The stream that it
-- makes is a shared object: a response holds its place in the list of all streams.
pub mod State
pub mod Laws
use mongoose_cpp.Prelude.{
  ℕ, Bool, true, false, List, [], ◌∷◌, ◌++◌, Option, none, some, Bytes, codes, ℤ, pos, negsuc,
  length, if◌then◌else◌,
}
use mongoose_cpp.Table.Order.{Order}
use mongoose_cpp.Mongoose.{Wakeup, Signal}
use mongoose_cpp.Http.Headers
use mongoose_cpp.Http.Headers.{Headers, Entry}
use mongoose_cpp.Http.Status
use mongoose_cpp.Http.Status.{StatusCode}
use mongoose_cpp.Http.AsyncStream
use mongoose_cpp.Http.AsyncStream.{AsyncStream}
use State.{ResponseState, is_pending}

pub record Payload : Type 0 where
  pub code : ℤ
  pub headers : Bytes
  pub body : Bytes

pub record AsyncResponse : Type 0 where
  pub conn : ℕ
  pub id : ℕ
  pub headers : Headers
  pub payload : Payload
  pub state : ResponseState
  pub stream : Option ℕ

unfoldable pub new : ℕ → ℕ → AsyncResponse
new conn id = record {
  conn = conn;
  id = id;
  headers = [];
  payload = record { code = negsuc 0; headers = []; body = [] };
  state = ResponseState.pending;
  stream = none;
}

-- What `send` does once it holds the manager, up to the call of `mg_wakeup`.
unfoldable pub fill_payload : Order Entry → AsyncResponse → ℤ → Bytes → AsyncResponse
fill_payload o r code body = record r {
  payload = record { code = code; headers = Headers.format o r.headers false 0; body = body };
}

-- `send(int, body)`, on a pending response.
unfoldable pub send_pending :
    Order Entry → AsyncResponse → ℤ → Bytes → Wakeup → AsyncResponse × List Signal
unfolding fill_payload
send_pending o r code body Wakeup.gone = (record r { state = ResponseState.failed }, [])
send_pending o r code body Wakeup.refused =
    (record (fill_payload o r code body) { state = ResponseState.failed }, [])
send_pending o r code body Wakeup.posted =
    (record (fill_payload o r code body) { state = ResponseState.sending }, (r.conn, r.id) ∷ [])

unfoldable pub send : Order Entry → AsyncResponse → ℤ → Bytes → Wakeup → AsyncResponse × List Signal
unfolding send_pending
send o r code body answer =
    if is_pending r.state then send_pending o r code body answer else (r, [])

-- The overloads of `send`.
unfoldable pub send_status :
    Order Entry → AsyncResponse → StatusCode → Bytes → Wakeup → AsyncResponse × List Signal
unfolding send
send_status o r code body answer = send o r (Status.value code) body answer

unfoldable pub send_code : Order Entry → AsyncResponse → ℤ → Wakeup → AsyncResponse × List Signal
unfolding send
send_code o r code answer = send o r code [] answer

-- What a call of `stream` leaves: the response, all streams, the stream that is returned (`none` for
-- a null pointer) and the wake-ups that were posted.
pub record Streamed : Type 0 where
  pub response : AsyncResponse
  pub streams : List AsyncStream
  pub result : Option ℕ
  pub signals : List Signal

-- The headers of a streamed answer.
unfoldable pub stream_headers : Headers → Bytes → Headers
stream_headers h encoding =
    Headers.set (Headers.remove h (codes "Content-Length")) (codes "Transfer-Encoding") encoding

-- What `stream` does once it holds the manager, up to the call of `mg_wakeup`: the stream is made and
-- kept, and the state is still `pending`.
unfoldable pub stream_prepare :
    Order Entry → AsyncResponse → List AsyncStream → ℤ → Bytes → AsyncResponse × List AsyncStream
unfolding stream_headers
stream_prepare o r streams code encoding =
    let h = stream_headers r.headers encoding in
    let preamble = Status.preamble code (Headers.format o h false 0) in
    (
      record r { headers = h; stream = some (length streams) },
      streams ++ AsyncStream.new r.conn r.id preamble ∷ [],
    )

unfoldable pub stream_pending :
    Order Entry → AsyncResponse → List AsyncStream → ℤ → Bytes → Wakeup → Streamed
unfolding stream_prepare
stream_pending o r streams code encoding Wakeup.gone = record {
  response = record r { state = ResponseState.failed };
  streams = streams;
  result = none;
  signals = [];
}
stream_pending o r streams code encoding Wakeup.refused =
    let (prepared, grown) = stream_prepare o r streams code encoding in
    record {
      response = record prepared { state = ResponseState.failed };
      streams = grown;
      result = none;
      signals = [];
    }
stream_pending o r streams code encoding Wakeup.posted =
    let (prepared, grown) = stream_prepare o r streams code encoding in
    record {
      response = record prepared { state = ResponseState.streaming };
      streams = grown;
      result = some (length streams);
      signals = (r.conn, r.id) ∷ [];
    }

unfoldable pub stream :
    Order Entry → AsyncResponse → List AsyncStream → ℤ → Bytes → Wakeup → Streamed
unfolding stream_pending
stream o r streams code encoding answer =
    if is_pending r.state
    then stream_pending o r streams code encoding answer
    else record { response = r; streams = streams; result = none; signals = [] }

-- The overload of `stream` with an enumerator.
unfoldable pub stream_status :
    Order Entry → AsyncResponse → List AsyncStream → StatusCode → Bytes → Wakeup → Streamed
unfolding stream
stream_status o r streams code encoding answer =
    stream o r streams (Status.value code) encoding answer

unfoldable pub mark_completed : AsyncResponse → AsyncResponse
mark_completed r = record r { state = ResponseState.completed }

unfoldable pub mark_failed : AsyncResponse → AsyncResponse
mark_failed r = record r { state = ResponseState.failed }

-- The pointer is moved out, which leaves a null pointer.
unfoldable pub get_stream : AsyncResponse → Option ℕ × AsyncResponse
get_stream r = (r.stream, record r { stream = none })
