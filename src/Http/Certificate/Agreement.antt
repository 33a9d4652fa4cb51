-- ===== src/Http/Certificate/Agreement.antt =====
-- The two libraries agree.
use mongoose_cpp.Prelude.{
  ℕ, ◌+◌, ◌-◌, ◌/◌, ◌%◌, ◌<◌, ◌≡◌, refl, sym, ◌∙◌, ap, true, false, List, [], ◌∷◌, ◌++◌, some,
  Bytes, arith, ◌==◌, leb, ltb, if◌then◌else◌, concat, map, ℤ, pos, negsuc, decimal_int, length,
  take, take-append_left, append-nil,
}
use mongoose_cpp.Http.Certificate.{Fields, hex_digit, format_byte, erase_colons}
use mongoose_cpp.Http.Certificate.Tm.{Tm, ◌-ℤ◌}
use mongoose_cpp.Http.Certificate.OpenSsl
use mongoose_cpp.Http.Certificate.Mbed

-- Upper case hexadecimal digits by their ASCII codes, and two of them for a byte.
abbrev pub hex_char : ℕ → ℕ
hex_char d = if leb 10 d then d + 55 else d + 48

abbrev pub byte_hex : ℕ → Bytes
byte_hex byte = hex_char (byte / 16 % 16) ∷ hex_char (byte % 16) ∷ []

-- The bytes in hexadecimal digits, in one piece.
abbrev pub plain_hex : List ℕ → Bytes
plain_hex bytes = concat (map byte_hex bytes)

-- The same with a colon in front of each byte, and with a colon between two bytes.
abbrev pub colons_before : List ℕ → Bytes
colons_before [] = []
colons_before (byte ∷ rest) = b':' ∷ byte_hex byte ++ colons_before rest

abbrev pub colon_hex : List ℕ → Bytes
colon_hex [] = []
colon_hex (byte ∷ rest) = byte_hex byte ++ colons_before rest

hex_digit-hex_char : (d : ℕ) → d < 16 → hex_digit d ≡ hex_char d
unfolding hex_digit
hex_digit-hex_char d h = ground arith

format_byte-byte_hex : (byte : ℕ) → format_byte byte ≡ byte_hex byte
unfolding format_byte
format_byte-byte_hex byte =
    ap (λ c. c ∷ hex_digit (byte % 16) ∷ []) (hex_digit-hex_char (byte / 16 % 16) (omega arith))
    ∙ ap (λ c. hex_char (byte / 16 % 16) ∷ c ∷ []) (hex_digit-hex_char (byte % 16) (omega arith))

-- Each of the two loops prints the digest with a colon between two bytes.
openssl_fingerprint : (digest : List ℕ) → OpenSsl.format_fingerprint digest ≡ colon_hex digest
unfolding OpenSsl.format_fingerprint
openssl_fingerprint [] = refl
openssl_fingerprint (byte ∷ []) = format_byte-byte_hex byte ∙ sym (append-nil (byte_hex byte))
openssl_fingerprint (byte ∷ next ∷ rest) =
    ap (λ z. z ++ b':' ∷ OpenSsl.format_fingerprint (next ∷ rest)) (format_byte-byte_hex byte)
    ∙ ap (λ z. byte_hex byte ++ b':' ∷ z) (openssl_fingerprint (next ∷ rest))

mbed_fingerprint : (hash : List ℕ) → Mbed.format_fingerprint hash ≡ colon_hex hash
unfolding Mbed.format_fingerprint
mbed_fingerprint [] = refl
mbed_fingerprint (byte ∷ []) = format_byte-byte_hex byte ∙ sym (append-nil (byte_hex byte))
mbed_fingerprint (byte ∷ next ∷ rest) =
    ap (λ z. z ++ b':' ∷ Mbed.format_fingerprint (next ∷ rest)) (format_byte-byte_hex byte)
    ∙ ap (λ z. byte_hex byte ++ b':' ∷ z) (mbed_fingerprint (next ∷ rest))

hex_char-not_colon : (d : ℕ) → d < 16 → (hex_char d == b':') ≡ false
hex_char-not_colon d h = ground arith

erase_colons-byte_hex :
    (byte : ℕ) (rest : Bytes)
    → erase_colons (byte_hex byte ++ rest) ≡ byte_hex byte ++ erase_colons rest
unfolding erase_colons
erase_colons-byte_hex byte rest = ground (
  arith,
  hex_char-not_colon (byte / 16 % 16) (omega arith),
  hex_char-not_colon (byte % 16) (omega arith),
)

erase_colons-colons_before : (bytes : List ℕ) → erase_colons (colons_before bytes) ≡ plain_hex bytes
unfolding erase_colons
erase_colons-colons_before [] = refl
erase_colons-colons_before (byte ∷ rest) =
    erase_colons-byte_hex byte (colons_before rest)
    ∙ ap (◌++◌ (byte_hex byte)) (erase_colons-colons_before rest)

-- Without its colons, the colon-separated text of some bytes is their plain text.
erase_colons-colon_hex : (bytes : List ℕ) → erase_colons (colon_hex bytes) ≡ plain_hex bytes
unfolding erase_colons
erase_colons-colon_hex [] = refl
erase_colons-colon_hex (byte ∷ rest) =
    erase_colons-byte_hex byte (colons_before rest)
    ∙ ap (◌++◌ (byte_hex byte)) (erase_colons-colons_before rest)

-- A call printed a text: it returned its length, and the buffer begins with it.
abbrev pub Prints : Mbed.Printed → Bytes → Type 0
Prints p text = (rest : Bytes) × (p.result ≡ pos (length text)) × (p.buffer ≡ text ++ rest)

get_text-Prints : (p : Mbed.Printed) (text : Bytes) → Prints p text → Mbed.get_text p ≡ some text
unfolding Mbed.get_text
get_text-Prints p text (rest, e, h) =
    rw e (ap some (ap (take (length text)) h ∙ take-append_left text rest))

-- `z + k`, on an `int`.
abbrev pub plus : ℤ → ℕ → ℤ
plus (pos n) k = pos (n + k)
plus (negsuc n) k = if ltb n k then pos (k - n - 1) else negsuc (n - k)

minus-plus : (z : ℤ) (k : ℕ) → (plus z k -ℤ k) ≡ z
minus-plus (pos n) k = ground arith
minus-plus (negsuc n) k = ground arith

-- A `struct tm` and an `mbedtls_x509_time` are one time: the first counts years from 1900 and
-- months from 0, the second has the year itself and counts months from 1.
pub record SameTime (t : Tm) (x : Mbed.X509Time) : Type 0 where
  pub year : x.year ≡ plus t.tm_year 1900
  pub mon : x.mon ≡ plus t.tm_mon 1
  pub day : x.day ≡ t.tm_mday
  pub hour : x.hour ≡ t.tm_hour
  pub min : x.min ≡ t.tm_min
  pub sec : x.sec ≡ t.tm_sec

calendar-SameTime : (t : Tm) (x : Mbed.X509Time) → SameTime t x → Mbed.calendar x ≡ t
unfolding Mbed.calendar
calendar-SameTime t x s =
    rw (s.year, s.mon, s.day, s.hour, s.min, s.sec)
      (rw (minus-plus t.tm_year 1900, minus-plus t.tm_mon 1))

-- Both builds keep the same texts of a certificate: its two names, its serial number in upper case
-- hexadecimal digits, its two times as seconds, and its digest in such digits with a colon between
-- two bytes. The two libraries report the same names, times and digest, mbedTLS the times with the
-- year itself and months from 1, and print the same bytes of the serial number, OpenSSL in one piece
-- and mbedTLS with a colon between two bytes.
pub backends_agree :
    (timegm : Tm → ℤ) (cert : OpenSsl.X509) (crt : Mbed.Crt) (serial : List ℕ) (before after : Tm)
    → Prints crt.subject cert.subject_name
    → Prints crt.issuer cert.issuer_name
    → Prints crt.serial (colon_hex serial)
    → cert.serial_hex ≡ plain_hex serial
    → cert.not_before ≡ some before
    → cert.not_after ≡ some after
    → SameTime before crt.valid_from
    → SameTime after crt.valid_to
    → crt.raw ≡ some (record { success = true; hash = cert.digest })
    → let kept : Fields = record {
      subject = cert.subject_name;
      issuer = cert.issuer_name;
      serial = plain_hex serial;
      before = decimal_int (timegm before);
      after = decimal_int (timegm after);
      fingerprint = colon_hex cert.digest;
    } in
      (Mbed.extract timegm (some crt) ≡ some kept)
      × (OpenSsl.extract timegm (record { has_ssl = true; certificate = some cert; has_bio = true })
          ≡ some kept)
unfolding Mbed.extract OpenSsl.extract
backends_agree timegm cert crt serial before after subject issuer printed hex b a same_b same_a
      raw =
    (
      rw (
        get_text-Prints crt.subject cert.subject_name subject,
        get_text-Prints crt.issuer cert.issuer_name issuer,
        get_text-Prints crt.serial (colon_hex serial) printed,
        erase_colons-colon_hex serial,
        calendar-SameTime before crt.valid_from same_b,
        calendar-SameTime after crt.valid_to same_a,
        raw,
        mbed_fingerprint cert.digest,
      ),
      rw (hex, b, a, openssl_fingerprint cert.digest),
    )
