-- ===== src/Tests/Copies.antt =====
-- The copy of a message.
use mathlib.Core.Option
use mongoose_cpp.Prelude.{
  ◌≡◌, [], ◌∷◌, some, none, codes, arith, ℕ, get_elem?, ltb, ◌==◌, if◌then◌else◌, Bool-cases, inl,
  inr,
}
use mongoose_cpp.Http.Certificate.{TlsCertInfo, make_cert_info}
use mongoose_cpp.Http.Request
use mongoose_cpp.Http.AsyncRequest
use mongoose_cpp.Http.AsyncRequest.{MgStr, HttpMessage, AsyncRequest, Certs, lock, blank}
use mongoose_cpp.Http.AsyncRequest.Views.{Releases, text, header_texts, copy_outlives_message}

-- Any two memories with the same content everywhere hold a copy; here every byte is 65.
abbrev letters : ℕ → ℕ
letters address = 65

abbrev view : ℕ → ℕ → MgStr
view b n = record { buf = some b; len = n }

abbrev sample_message : HttpMessage
sample_message = record {
  message = view 100 40;
  method = view 100 3;
  uri = view 104 2;
  query = blank;
  proto = view 107 8;
  headers = (view 117 4, view 123 4) ∷ (blank, blank) ∷ [];
  body = view 135 5;
}

abbrev sample_copy : AsyncRequest
sample_copy =
    AsyncRequest.new 100 (view 30 40) sample_message (view 105 1 ∷ []) (codes "127.0.0.1:80")
      (some 2)

-- The message's own bytes are gone.
abbrev later : ℕ → ℕ
later address = if ltb address 100 then 65 else 0

abbrev sample_cert : TlsCertInfo
sample_cert = make_cert_info (record {
  subject = codes "CN=client";
  issuer = [];
  serial = [];
  before = [];
  after = [];
  fingerprint = [];
})

-- A store with certificates everywhere, and the one after the connection closed.
abbrev owned : Certs
owned place = some sample_cert

abbrev released : Certs
released place = if place == 2 then none else some sample_cert

abbrev closed : Releases owned released
closed place = elim (Bool-cases (place == 2)) [ inl e ↦ inr (rw e) | inr e ↦ inl (rw e) ]

copy_outlives_message_example :
    (text later (AsyncRequest.method sample_copy) ≡ codes "AAA")
    × (text later (AsyncRequest.uri sample_copy) ≡ codes "AA")
    × (text later (AsyncRequest.query sample_copy) ≡ [])
    × (text later (AsyncRequest.version sample_copy) ≡ codes "AAAAAAAA")
    × (text later (AsyncRequest.body sample_copy) ≡ codes "AAAAA")
    × (header_texts later sample_copy.msg.headers ≡ (codes "AAAA", codes "AAAA") ∷ [])
    × ((index : ℕ)
        → Option.map (text later) (AsyncRequest.get_param sample_copy index)
          ≡ get_elem? (codes "A" ∷ []) index)
    × (AsyncRequest.get_remote_ip sample_copy ≡ codes "127.0.0.1:80")
    × (lock released (AsyncRequest.get_tls_cert_info sample_copy) ≡ none)
    × (AsyncRequest.destroy sample_copy ≡ some 30)
unfolding lock Request.method Request.uri Request.query Request.version Request.body
    Request.get_param Request.get_remote_ip Request.get_tls_cert_info
copy_outlives_message_example =
    copy_outlives_message letters later owned released 100 30 sample_message (view 105 1 ∷ [])
      (codes "127.0.0.1:80") (some 2)
      (record {
        method_inside = (omega arith, omega arith);
        uri_inside = (omega arith, omega arith);
        query_inside = tt;
        proto_inside = (omega arith, omega arith);
        headers_inside = (((omega arith, omega arith), (omega arith, omega arith)), ((tt, tt), tt));
        body_inside = (omega arith, omega arith);
      })
      ((omega arith, omega arith), tt) (λ i h. ground arith) (omega arith) closed
