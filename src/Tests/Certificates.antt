-- ===== src/Tests/Certificates.antt =====
-- One certificate as the two libraries report it.
use mongoose_cpp.Prelude.{◌≡◌, refl, [], ◌∷◌, ◌++◌, some, codes, pos, ℤ, true}
use mongoose_cpp.Http.Certificate.{Fields}
use mongoose_cpp.Http.Certificate.Tm.{Tm}
use mongoose_cpp.Http.Certificate.OpenSsl
use mongoose_cpp.Http.Certificate.Mbed
use mongoose_cpp.Http.Certificate.Agreement.{backends_agree, SameTime}

abbrev seconds : Tm → ℤ
seconds t = t.tm_sec

abbrev day : Mbed.X509Time
day = record { year = pos 2025; mon = pos 3; day = pos 1; hour = pos 0; min = pos 0; sec = pos 5 }

-- The same day for the C library.
abbrev sample_tm : Tm
sample_tm = record {
  tm_year = pos 125;
  tm_mon = pos 2;
  tm_mday = pos 1;
  tm_hour = pos 0;
  tm_min = pos 0;
  tm_sec = pos 5;
}

abbrev ssl_cert : OpenSsl.X509
ssl_cert = record {
  subject_name = codes "CN=client";
  issuer_name = codes "CN=root";
  not_before = some sample_tm;
  not_after = some sample_tm;
  serial_hex = codes "0AFF";
  digest = 1 ∷ 171 ∷ [];
}

abbrev mbed_cert : Mbed.Crt
mbed_cert = record {
  subject = record { result = pos 9; buffer = codes "CN=client" ++ 0 ∷ [] };
  issuer = record { result = pos 7; buffer = codes "CN=root" ++ 0 ∷ 0 ∷ [] };
  serial = record { result = pos 5; buffer = codes "0A:FF" ++ 0 ∷ [] };
  valid_from = day;
  valid_to = day;
  raw = some (record { success = true; hash = 1 ∷ 171 ∷ [] });
}

abbrev expected : Fields
expected = record {
  subject = codes "CN=client";
  issuer = codes "CN=root";
  serial = codes "0AFF";
  before = codes "5";
  after = codes "5";
  fingerprint = codes "01:AB";
}

abbrev same_day : SameTime sample_tm day
same_day = record { year = refl; mon = refl; day = refl; hour = refl; min = refl; sec = refl }

backends_agree_example :
    (Mbed.extract seconds (some mbed_cert) ≡ some expected)
    × (OpenSsl.extract seconds
          (record { has_ssl = true; certificate = some ssl_cert; has_bio = true })
        ≡ some expected)
backends_agree_example =
    backends_agree seconds ssl_cert mbed_cert (10 ∷ 255 ∷ []) sample_tm sample_tm
      (0 ∷ [], refl, refl) (0 ∷ 0 ∷ [], refl, refl) (0 ∷ [], refl, refl) refl refl refl same_day
      same_day refl
