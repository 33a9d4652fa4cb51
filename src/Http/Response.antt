-- ===== src/Http/Response.antt =====
-- The synchronous response, alive while its handler runs: class response of
-- include/mgxx/http/response.hpp and src/http/response.cpp.
pub mod Laws
use mongoose_cpp.Prelude.{
  ℕ, Bool, true, false, List, [], ◌∷◌, ◌++◌, Option, none, some, Bytes, codes, ℤ, pos, c_str,
  if◌then◌else◌,
}
use mongoose_cpp.Table.Order.{Order}
use mongoose_cpp.Mongoose.{
  MgCall, http_reply, send_bytes, Outcome, ok, fault, Fault, bad_cast, ◌>>=◌,
}
use mongoose_cpp.Http.Headers
use mongoose_cpp.Http.Headers.{Headers, Entry}
use mongoose_cpp.Http.Headers.Laws.{Write, apply}
use mongoose_cpp.Http.Status
use mongoose_cpp.Http.Connection.{Connection, FnData, Producer, set_stream}

-- The connection stands in the state beside it; `is_open` says that `m_conn` is not null.
pub record Response : Type 0 where
  pub is_open : Bool
  pub headers : Headers

unfoldable pub new : Response
new = record { is_open = true; headers = [] }

-- A call that a handler makes on its response.
pub data Action : Type 0 where
  header : Write → Action
  send : ℤ → Bytes → Action
  stream : ℤ → Bytes → Producer → Action

-- The response, its connection, and the calls made so far.
pub record Run : Type 0 where
  pub response : Response
  pub conn : Connection
  pub calls : List MgCall

unfoldable pub send_reply : Order Entry → Run → ℤ → Bytes → Run
send_reply o r code body =
    if r.response.is_open
    then record r {
      response = record response { is_open = false };
      calls =
          calls
          ++ http_reply conn.id code (c_str (Headers.format o response.headers false 0)) body ∷ [];
    }
    else r
  where
    open r use {response, conn, calls}

-- `static_cast<remote_context*>(m_conn->fn_data)->set_stream(producer)`.
unfoldable pub attach : FnData → Producer → Outcome FnData
attach (FnData.context c) producer = ok (FnData.context (set_stream c producer))
attach _ producer = fault bad_cast

unfoldable pub stream_open : Order Entry → Run → ℤ → Bytes → Producer → Outcome Run
unfolding attach
stream_open o r code encoding producer =
    let h =
      Headers.set (Headers.remove r.response.headers (codes "Content-Length"))
        (codes "Transfer-Encoding") encoding in
    let preamble = Status.preamble code (Headers.format o h false 0) in
    do
      fn_data ← attach r.conn.fn_data producer
      ok (record {
        response = record { is_open = false; headers = h };
        conn = record conn { fn_data = fn_data };
        calls = calls ++ send_bytes conn.id preamble ∷ [];
      })
  where
    open r use {conn, calls}

unfoldable pub stream_reply : Order Entry → Run → ℤ → Bytes → Producer → Outcome Run
unfolding stream_open
stream_reply o r code encoding producer =
    if r.response.is_open then stream_open o r code encoding producer else ok r

-- The overloads of `send` and `stream`.
unfoldable pub send_status : Order Entry → Run → Status.StatusCode → Bytes → Run
unfolding send_reply
send_status o r code body = send_reply o r (Status.value code) body

unfoldable pub send_code : Order Entry → Run → ℤ → Run
unfolding send_reply
send_code o r code = send_reply o r code []

unfoldable pub send_only_status : Order Entry → Run → Status.StatusCode → Run
unfolding send_code
send_only_status o r code = send_code o r (Status.value code)

unfoldable pub stream_status :
    Order Entry → Run → Status.StatusCode → Bytes → Producer → Outcome Run
unfolding stream_reply
stream_status o r code encoding producer = stream_reply o r (Status.value code) encoding producer

unfoldable pub stream_chunked : Order Entry → Run → ℤ → Producer → Outcome Run
unfolding stream_reply
stream_chunked o r code producer = stream_reply o r code (codes "chunked") producer

unfoldable pub stream_status_chunked :
    Order Entry → Run → Status.StatusCode → Producer → Outcome Run
unfolding stream_chunked
stream_status_chunked o r code producer = stream_chunked o r (Status.value code) producer

unfoldable pub act : Order Entry → Run → Action → Outcome Run
unfolding send_reply stream_reply
act o r (header w) =
    ok (record r { response = record (r.response) { headers = apply r.response.headers w } })
act o r (send code body) = ok (send_reply o r code body)
act o r (stream code encoding producer) = stream_reply o r code encoding producer

unfoldable pub act_all : Order Entry → Run → List Action → Outcome Run
unfolding act
act_all o r [] = ok r
act_all o r (a ∷ rest) = act o r a >>= λ s. act_all o s rest
