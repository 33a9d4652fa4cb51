-- ===== src/Http/Request.antt =====
-- The request that a handler is given: class request of include/mgxx/http/request.hpp and
-- src/http/request.cpp. Its views are the bytes that they show while the handler runs, and its weak
-- pointer to the certificate is what locking it gives then, since the connection, which owns the
-- certificate, outlives the handler; Http.AsyncRequest follows them through memory.
use mongoose_cpp.Prelude.{ℕ, List, Bytes, Option, get_elem?}
use mongoose_cpp.Http.Certificate.{TlsCertInfo}
use mongoose_cpp.Http.Connection.{RemoteContext}

-- `mg_http_message`.
pub record Message : Type 0 where
  pub method : Bytes
  pub uri : Bytes
  pub query : Bytes
  pub proto : Bytes
  pub headers : List (Bytes × Bytes)
  pub body : Bytes

pub record Request : Type 0 where
  pub msg : Message
  pub groups : List Bytes
  pub ip : Bytes
  pub tls_cert_info : Option TlsCertInfo

unfoldable pub new : Message → RemoteContext → List Bytes → Request
new msg context groups = record {
  msg = msg;
  groups = groups;
  ip = context.ip;
  tls_cert_info = context.tls_cert;
}

unfoldable pub get_remote_ip : Request → Bytes
get_remote_ip r = r.ip

unfoldable pub get_tls_cert_info : Request → Option TlsCertInfo
get_tls_cert_info r = r.tls_cert_info

unfoldable pub method : Request → Bytes
method r = r.msg.method

unfoldable pub uri : Request → Bytes
uri r = r.msg.uri

unfoldable pub get_param : Request → ℕ → Option Bytes
get_param r index = get_elem? r.groups index

unfoldable pub query : Request → Bytes
query r = r.msg.query

unfoldable pub version : Request → Bytes
version r = r.msg.proto

-- `mg_http_get_header` is mongoose's.
unfoldable pub get_header : (Message → Bytes → Option Bytes) → Request → Bytes → Option Bytes
get_header mg_http_get_header r name = mg_http_get_header r.msg name

unfoldable pub body : Request → Bytes
body r = r.msg.body
