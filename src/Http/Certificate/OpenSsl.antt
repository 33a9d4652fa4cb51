-- ===== src/Http/Certificate/OpenSsl.antt =====
-- remote_context::setup of src/http/remote_context.cpp in a build with OpenSSL (MGPP_OPENSSL), up to
-- the texts of the certificate.
use mongoose_cpp.Prelude.{
  ℕ, Bool, not, List, [], ◌∷◌, ◌++◌, Option, none, some, Bytes, ℤ, decimal_int, if◌then◌else◌,
}
use mongoose_cpp.Http.Certificate.{Fields, format_byte}
use mongoose_cpp.Http.Certificate.Tm.{Tm}

-- What OpenSSL answers about a certificate: what X509_NAME_print_ex prints of the two names, what
-- ASN1_TIME_to_tm makes of the two times (`none` where it returns 0), what BN_bn2hex makes of the
-- serial number, and the bytes that X509_digest returns.
pub record X509 : Type 0 where
  pub subject_name : Bytes
  pub issuer_name : Bytes
  pub not_before : Option Tm
  pub not_after : Option Tm
  pub serial_hex : Bytes
  pub digest : List ℕ

-- The session of a TLS connection: whether `tls->ssl` is not null, the peer's certificate, and
-- whether BIO_new returns a buffer.
pub record Session : Type 0 where
  pub has_ssl : Bool
  pub certificate : Option X509
  pub has_bio : Bool

-- The buffer `bio` by its content; both names are printed into the same one.
unfoldable pub get_x509_name : Bytes → Bytes → Bytes
get_x509_name bio name = let reset : Bytes = [] in reset ++ name

unfoldable pub get_x509_time : (Tm → ℤ) → Option Tm → Bytes
get_x509_time timegm none = []
get_x509_time timegm (some t) = decimal_int (timegm t)

-- The loop over `fp`, with a colon behind every byte but the last.
unfoldable pub format_fingerprint : List ℕ → Bytes
unfolding format_byte
format_fingerprint [] = []
format_fingerprint (byte ∷ rest) =
    let later = format_fingerprint rest in
    elim rest [ [] ↦ format_byte byte | next ∷ more ↦ format_byte byte ++ b':' ∷ later ]

unfoldable pub read_certificate : (Tm → ℤ) → X509 → Fields
unfolding get_x509_name get_x509_time format_fingerprint
read_certificate timegm cert =
    let subject = get_x509_name [] cert.subject_name in
    record {
      subject = subject;
      issuer = get_x509_name subject cert.issuer_name;
      serial = cert.serial_hex;
      before = get_x509_time timegm cert.not_before;
      after = get_x509_time timegm cert.not_after;
      fingerprint = format_fingerprint cert.digest;
    }

-- The early returns, and the texts.
unfoldable pub extract : (Tm → ℤ) → Session → Option Fields
unfolding read_certificate
extract timegm s = if not s.has_ssl then none else elim s.certificate [
  | none ↦ none
  | some cert ↦ if not s.has_bio then none else some (read_certificate timegm cert)
]
