-- ===== src/Http/Endpoint/Tls.antt =====
-- The TLS material of an endpoint: the four overloads of use_tls, is_mtls, handle_secure and the
-- destructor of src/http/endpoint.cpp.
pub mod Ownership
pub mod Views
use mongoose_cpp.Prelude.{
  ◌||◌, ◌++◌, Bool, true, false, not, List, [], ◌∷◌, Bytes, if◌then◌else◌, length, ltb,
}
use mongoose_cpp.Mongoose.{MgStr, Pointer, null_str, TlsOpts, tls_init}
use mongoose_cpp.Http.Connection.{Connection}
use mongoose_cpp.Http.Headers.{is_empty}
use mongoose_cpp.Http.Endpoint.State.{Endpoint, System, emit, new}

-- A text of a `std::string`, and what `mg_strdup` returns for it.
pub record Copied : Type 0 where
  pub text : Bytes
  pub copy : MgStr

unfoldable pub is_mtls : Endpoint → Bool
is_mtls e = ltb 0 (length e.tls_ca.bytes)

-- The overloads with strings, which copy, without a certificate authority and with one.
unfoldable pub use_tls : Endpoint → Copied → Copied → Endpoint
use_tls e cert key = record e { tls_cert = cert.copy; tls_key = key.copy; tls_alloc = true }

unfoldable pub use_mtls : Endpoint → Copied → Copied → Copied → Endpoint
use_mtls e ca cert key = record e {
  tls_ca = ca.copy;
  tls_cert = cert.copy;
  tls_key = key.copy;
  tls_alloc = true;
}

-- The overloads with views, which keep the pointers that they are given.
unfoldable pub use_tls_view : Endpoint → MgStr → MgStr → Endpoint
use_tls_view e cert key = record e { tls_cert = cert; tls_key = key }

unfoldable pub use_mtls_view : Endpoint → MgStr → MgStr → MgStr → Endpoint
use_mtls_view e ca cert key = record e { tls_ca = ca; tls_cert = cert; tls_key = key }

-- A call of one of the four, and any number of them.
pub data UseTls : Type 0 where
  tls : Copied → Copied → UseTls
  mtls : Copied → Copied → Copied → UseTls
  tls_view : MgStr → MgStr → UseTls
  mtls_view : MgStr → MgStr → MgStr → UseTls

unfoldable pub use_tls_call : Endpoint → UseTls → Endpoint
unfolding use_tls use_mtls use_tls_view use_mtls_view
use_tls_call e (tls cert key) = use_tls e cert key
use_tls_call e (mtls ca cert key) = use_mtls e ca cert key
use_tls_call e (tls_view cert key) = use_tls_view e cert key
use_tls_call e (mtls_view ca cert key) = use_mtls_view e ca cert key

unfoldable pub use_all : Endpoint → List UseTls → Endpoint
unfolding use_tls_call
use_all e [] = e
use_all e (call ∷ calls) = use_all (use_tls_call e call) calls

unfoldable pub handle_secure : Connection → System → System
unfolding is_mtls
handle_secure conn s =
    if (not conn.is_tls || is_empty s.tls_cert.bytes) || is_empty s.tls_key.bytes
    then s
    else emit s (tls_init conn.id opts)
  where
    opts : TlsOpts
    opts = record {
      ca = if is_mtls s.endpoint then s.tls_ca else null_str;
      cert = s.tls_cert;
      key = s.tls_key;
    }

-- The destructor: what it passes to `mg_free`, in order, and the endpoint at its end.
unfoldable pub destroy : Endpoint → List Pointer × Endpoint
unfolding is_mtls
destroy e =
    if e.tls_alloc
    then (
      (if is_mtls e then e.tls_ca.buf ∷ [] else []) ++ e.tls_cert.buf ∷ e.tls_key.buf ∷ [],
      record e { tls_alloc = false },
    )
    else ([], e)
