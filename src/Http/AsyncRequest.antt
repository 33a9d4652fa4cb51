-- ===== src/Http/AsyncRequest.antt =====
-- The asynchronous request, a copy of a message that outlives it: class async_request of
-- include/mgxx/http/async_request.hpp and src/http/async_request.cpp, and request::to_async of
-- src/http/request.cpp. A view is an address and a length, as mongoose's `mg_str`, and the memory a
-- function from addresses to bytes. A weak pointer is a place in a store of the objects that are
-- still owned.
pub mod Views
use mongoose_cpp.Prelude.{
  ℕ, zero, suc, ◌+◌, ◌-◌, List, [], ◌∷◌, Option, none, some, Bytes, Bool, true, false,
  if◌then◌else◌, map, get_elem?,
}
use mongoose_cpp.Http.Certificate.{TlsCertInfo}

-- `mg_str`; `none` is a null pointer.
pub record MgStr : Type 0 where
  pub buf : Option ℕ
  pub len : ℕ

abbrev pub blank : MgStr
blank = record { buf = none; len = 0 }

-- The views of `mg_http_message` that the library copies.
pub record HttpMessage : Type 0 where
  pub message : MgStr
  pub method : MgStr
  pub uri : MgStr
  pub query : MgStr
  pub proto : MgStr
  pub headers : List (MgStr × MgStr)
  pub body : MgStr

-- The certificates that their connections still own, by place, and `std::weak_ptr<tls_cert_info>`:
-- `none` points at nothing from the start.
abbrev pub Certs : Type 0
Certs = ℕ → Option TlsCertInfo

abbrev pub WeakCert : Type 0
WeakCert = Option ℕ

-- `lock`, `none` for a null pointer.
unfoldable pub lock : Certs → WeakCert → Option TlsCertInfo
lock certs none = none
lock certs (some place) = certs place

pub record AsyncRequest : Type 0 where
  pub msg : HttpMessage
  pub groups : List MgStr
  pub ip : Bytes
  pub tls_cert_info : WeakCert

-- A pointer is an address, 0 for null.
abbrev pub address : Option ℕ → ℕ
address none = 0
address (some b) = b

abbrev pub pointer : ℕ → Option ℕ
pointer zero = none
pointer (suc n) = some (suc n)

-- `buf + delta`, where `delta` is the distance from one buffer to the other; a view of the message
-- does not begin before it.
unfoldable pub rebase : ℕ → ℕ → MgStr → MgStr
rebase from to str = elim str.buf [
  | none ↦ blank
  | some b ↦ record { buf = pointer (b + to - from); len = str.len }
]

abbrev pub is_null : Option ℕ → Bool
is_null none = true
is_null (some b) = false

-- The loop over the headers, which stops behind the first name that is null; the entries behind it
-- are blank from the start.
unfoldable pub rebase_headers : ℕ → ℕ → List (MgStr × MgStr) → List (MgStr × MgStr)
unfolding rebase
rebase_headers from to [] = []
rebase_headers from to ((name, value) ∷ rest) =
    let copied = rebase_headers from to rest in
    let blanks = map (λ (h : MgStr × MgStr). (blank, blank)) rest in
    (rebase from to name, rebase from to value)
    ∷ (if is_null (rebase from to name).buf then blanks else copied)

-- The constructor: `from` is where the message begins and `copy` what `mg_strdup` returned, null
-- where there was no memory, which the constructor does not test.
unfoldable pub new : ℕ → MgStr → HttpMessage → List MgStr → Bytes → WeakCert → AsyncRequest
unfolding rebase rebase_headers
new from copy msg groups ip tls_cert_info =
    let to = address copy.buf in
    record {
      msg = record {
        message = copy;
        method = rebase from to msg.method;
        uri = rebase from to msg.uri;
        query = rebase from to msg.query;
        proto = rebase from to msg.proto;
        headers = rebase_headers from to msg.headers;
        body = rebase from to msg.body;
      };
      groups = map (rebase from to) groups;
      ip = ip;
      tls_cert_info = tls_cert_info;
    }

unfoldable pub get_param : AsyncRequest → ℕ → Option MgStr
get_param r index = get_elem? r.groups index

-- The destructor, by the address that it frees; `mg_free` of null frees nothing.
unfoldable pub destroy : AsyncRequest → Option ℕ
destroy r = r.msg.message.buf

-- The accessors give views of the copy, each a `std::string_view`.
unfoldable pub get_remote_ip : AsyncRequest → Bytes
get_remote_ip r = r.ip

unfoldable pub get_tls_cert_info : AsyncRequest → WeakCert
get_tls_cert_info r = r.tls_cert_info

unfoldable pub method : AsyncRequest → MgStr
method r = record { buf = r.msg.method.buf; len = r.msg.method.len }

unfoldable pub uri : AsyncRequest → MgStr
uri r = record { buf = r.msg.uri.buf; len = r.msg.uri.len }

unfoldable pub query : AsyncRequest → MgStr
query r = record { buf = r.msg.query.buf; len = r.msg.query.len }

unfoldable pub version : AsyncRequest → MgStr
version r = record { buf = r.msg.proto.buf; len = r.msg.proto.len }

unfoldable pub body : AsyncRequest → MgStr
body r = record { buf = r.msg.body.buf; len = r.msg.body.len }
