-- ===== src/Http/Connection.antt =====
-- A connection of mongoose, by the fields of `mg_connection` that the library reads or writes, and
-- the remote context that hangs on it: class remote_context of include/mgxx/internal/remote_context.hpp
-- and src/http/remote_context.cpp (without the extraction of the certificate), and format_ip of
-- src/http/common.cpp.
pub mod Pump
pub mod Truncation
use mongoose_cpp.Prelude.{
  ◌+◌, ◌==◌, ℕ, suc, Bool, true, false, List, [], ◌∷◌, ◌++◌, Option, none, some, Bytes, decimal,
  leb, if◌then◌else◌,
}
use mongoose_cpp.Mongoose.{MgCall, http_write_chunk}
use mongoose_cpp.Http.Certificate.{TlsCertInfo}
use mongoose_cpp.Http.AsyncStream
use mongoose_cpp.Http.AsyncStream.{AsyncStream}
use mongoose_cpp.Http.AsyncStream.State.{is_flush}

-- A `stream_producer`, the user's callback: what its n-th call returns, and the calls made so far.
pub record Producer : Type 0 where
  pub next : ℕ → Option Bytes
  pub calls : ℕ

-- `get`.
unfoldable pub pull : Producer → Option Bytes × Producer
pull p = (p.next p.calls, record p { calls = suc p.calls })

-- `mg_addr`.
pub record Addr : Type 0 where
  pub is_ip6 : Bool
  pub ip : Bytes
  pub port : ℕ

-- `inet_ntop` by the family, and `mg_ntohs`: the operating system's and mongoose's.
unfoldable pub format_ip : (Bool → Bytes → Bytes) → (ℕ → ℕ) → Addr → Bytes
format_ip inet_ntop ntohs addr =
    if addr.is_ip6
    then b'[' ∷ (inet_ntop true addr.ip ++ b']' ∷ b':' ∷ decimal (ntohs addr.port))
    else inet_ntop false addr.ip ++ b':' ∷ decimal (ntohs addr.port)

-- `m_tls_cert`, null until a peer presents a certificate.
pub record RemoteContext : Type 0 where
  pub ip : Bytes
  pub tls_cert : Option TlsCertInfo
  pub stream : Option Producer

-- What `fn_data` points at.
pub data FnData : Type 0 where
  null : FnData
  endpoint : FnData
  context : RemoteContext → FnData

-- The function that mongoose calls for the connection's events: it casts `fn_data` to an endpoint, or
-- to a context.
pub data Handler : Type 0 where
  event_manager_handler event_manager_context_handler : Handler

-- `tag` is `data[0]`, and `send_len` is `send.len`.
pub record Connection : Type 0 where
  pub id : ℕ
  pub is_tls : Bool
  pub rem : Addr
  pub send_len : ℕ
  pub fn : Handler
  pub fn_data : FnData
  pub tag : ℕ

unfoldable pub set_stream : RemoteContext → Producer → RemoteContext
set_stream c producer = record c { stream = some producer }

-- `pump_stream` after its two early returns: one chunk is pulled and written, or the last one.
unfoldable pub pump_chunk :
    ℕ → RemoteContext → Producer → Option Bytes → List MgCall × RemoteContext
pump_chunk conn c pulled none = (http_write_chunk conn [] ∷ [], record c { stream = none })
pump_chunk conn c pulled (some chunk) =
    (http_write_chunk conn chunk ∷ [], record c { stream = some pulled })

unfoldable pub pump_producer :
    ℕ → ℕ → ℕ → RemoteContext → Option Producer → List MgCall × RemoteContext
unfolding pump_chunk pull
pump_producer io_size conn send_len c none = ([], c)
pump_producer io_size conn send_len c (some producer) =
    if leb io_size send_len
    then ([], c)
    else let (chunk, pulled) = pull producer in pump_chunk conn c pulled chunk

-- `io_size` is MG_IO_SIZE.
unfoldable pub pump_stream : ℕ → ℕ → ℕ → RemoteContext → List MgCall × RemoteContext
unfolding pump_producer
pump_stream io_size conn send_len c = pump_producer io_size conn send_len c c.stream

unfoldable pub pump_async_stream : ℕ → ℕ → AsyncStream → AsyncStream
pump_async_stream io_size send_len s =
    if is_flush s.state then (if leb io_size send_len then s else AsyncStream.mark_empty s) else s
