-- ===== src/Http/Certificate/Mbed.antt =====
-- remote_context::setup of src/http/remote_context.cpp in a build with mbedTLS (MGPP_MBED), up to the
-- texts of the certificate.
use mongoose_cpp.Prelude.{
  ℕ, Bool, not, List, [], ◌∷◌, ◌++◌, Option, none, some, Bytes, ℤ, pos, negsuc, decimal_int, take,
  if◌then◌else◌,
}
use mongoose_cpp.Http.Certificate.{Fields, format_byte, erase_colons}
use mongoose_cpp.Http.Certificate.Tm.{Tm, ◌-ℤ◌}

-- What a call that prints into the buffer returns, and the buffer behind it.
pub record Printed : Type 0 where
  pub result : ℤ
  pub buffer : Bytes

-- `mbedtls_x509_time`.
pub record X509Time : Type 0 where
  pub year : ℤ
  pub mon : ℤ
  pub day : ℤ
  pub hour : ℤ
  pub min : ℤ
  pub sec : ℤ

-- What psa_hash_compute answers: whether it returned PSA_SUCCESS, and the hash.
pub record Hashed : Type 0 where
  pub success : Bool
  pub hash : List ℕ

-- What mbedTLS answers about a certificate; `raw` is `none` where `raw.p` is null.
pub record Crt : Type 0 where
  pub subject : Printed
  pub issuer : Printed
  pub serial : Printed
  pub valid_from : X509Time
  pub valid_to : X509Time
  pub raw : Option Hashed

-- The two lambdas that print have the same body around the library's call.
unfoldable pub get_text : Printed → Option Bytes
get_text p = elim p.result [ pos length ↦ some (take length p.buffer) | negsuc n ↦ none ]

-- The loop over `hash`, with a colon behind every byte but the last.
unfoldable pub format_fingerprint : List ℕ → Bytes
unfolding format_byte
format_fingerprint [] = []
format_fingerprint (byte ∷ rest) =
    let later = format_fingerprint rest in
    elim rest [ [] ↦ format_byte byte | next ∷ more ↦ format_byte byte ++ b':' ∷ later ]

unfoldable pub get_fingerprint : Option Hashed → Option Bytes
unfolding format_fingerprint
get_fingerprint none = none
get_fingerprint (some h) = if not h.success then none else some (format_fingerprint h.hash)

-- The calendar time that `get_timestamp` fills in.
unfoldable pub calendar : X509Time → Tm
calendar t = record {
  tm_year = t.year -ℤ 1900;
  tm_mon = t.mon -ℤ 1;
  tm_mday = t.day;
  tm_hour = t.hour;
  tm_min = t.min;
  tm_sec = t.sec;
}

unfoldable pub get_timestamp : (Tm → ℤ) → X509Time → ℤ
unfolding calendar
get_timestamp timegm t = timegm (calendar t)

-- `value_or("")`.
abbrev pub value_or_empty : Option Bytes → Bytes
value_or_empty none = []
value_or_empty (some text) = text

unfoldable pub extract : (Tm → ℤ) → Option Crt → Option Fields
unfolding get_text get_fingerprint get_timestamp
extract timegm none = none
extract timegm (some cert) = some (record {
  subject = value_or_empty (get_text cert.subject);
  issuer = value_or_empty (get_text cert.issuer);
  serial = erase_colons (value_or_empty (get_text cert.serial));
  before = decimal_int (get_timestamp timegm cert.valid_from);
  after = decimal_int (get_timestamp timegm cert.valid_to);
  fingerprint = value_or_empty (get_fingerprint cert.raw);
})
