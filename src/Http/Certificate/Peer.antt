-- ===== src/Http/Certificate/Peer.antt =====
-- remote_context::setup of src/http/remote_context.cpp as a whole: what `conn->tls` leads to, in a build
-- with either library.
use mongoose_cpp.Prelude.{Option, none, some, ℤ}
use mongoose_cpp.Http.Certificate.{Fields, TlsCertInfo, make_cert_info}
use mongoose_cpp.Http.Certificate.Tm.{Tm}
use mongoose_cpp.Http.Certificate.OpenSsl
use mongoose_cpp.Http.Certificate.Mbed

-- A connection without TLS, or a build with neither library; and a session of OpenSSL or of mbedTLS,
-- the latter by the peer's certificate, which may be null.
pub data Peer : Type 0 where
  plain : Peer
  openssl : OpenSsl.Session → Peer
  mbed : Option Mbed.Crt → Peer

unfoldable pub extract : (Tm → ℤ) → Peer → Option Fields
unfolding OpenSsl.extract Mbed.extract
extract timegm plain = none
extract timegm (openssl session) = OpenSsl.extract timegm session
extract timegm (mbed cert) = Mbed.extract timegm cert

-- The certificate that the context holds afterwards, where it held `old` before.
unfoldable pub setup_cert : (Tm → ℤ) → Peer → Option TlsCertInfo → Option TlsCertInfo
unfolding extract
setup_cert timegm peer old = elim (extract timegm peer) [
  | none ↦ old
  | some fields ↦ some (make_cert_info fields)
]
