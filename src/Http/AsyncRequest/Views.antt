-- ===== src/Http/AsyncRequest/Views.antt =====
-- What the views of the copy read, and what became of the certificate.
use mathlib.Core.Option
use mongoose_cpp.Prelude.{
  ℕ, zero, suc, ◌+◌, ◌-◌, ◌<◌, ◌≤◌, ◌≡◌, refl, ◌∙◌, ap, List, [], ◌∷◌, Option, none, some, Bytes,
  map, arith, All, if◌then◌else◌, Bool-cases, inl, inr, get_elem?, ◌⊎◌, Bool, true, not,
}
use mongoose_cpp.Http.Certificate.{TlsCertInfo}
use mongoose_cpp.Http.Headers.{is_some}
use mongoose_cpp.Http.Request
use mongoose_cpp.Http.Request.{Request}
use mongoose_cpp.Http.AsyncRequest
use mongoose_cpp.Http.AsyncRequest.{
  MgStr, HttpMessage, AsyncRequest, Certs, WeakCert, lock, pointer, rebase, rebase_headers, is_null,
  blank,
}

-- The bytes from an address on, and those that a view shows.
abbrev pub read_from : (ℕ → ℕ) → ℕ → ℕ → Bytes
read_from mem b zero = []
read_from mem b (suc n) = mem b ∷ read_from mem (b + 1) n

abbrev pub shown : (ℕ → ℕ) → Option ℕ → ℕ → Bytes
shown mem none len = []
shown mem (some b) len = read_from mem b len

abbrev pub text : (ℕ → ℕ) → MgStr → Bytes
text mem v = shown mem v.buf v.len

-- The headers up to the first one whose name is null.
abbrev pub header_texts : (ℕ → ℕ) → List (MgStr × MgStr) → List (Bytes × Bytes)
header_texts mem [] = []
header_texts mem ((name, value) ∷ rest) =
    let later = header_texts mem rest in
    if is_null name.buf then [] else (text mem name, text mem value) ∷ later

-- The view is null, or lies in the `n` bytes from `base` on.
abbrev pub IsAt : ℕ → ℕ → Option ℕ → ℕ → Type 0
IsAt base n none len = Unit
IsAt base n (some b) len = (base ≤ b) × (b + len ≤ base + n)

abbrev pub IsInside : ℕ → ℕ → MgStr → Type 0
IsInside base n v = IsAt base n v.buf v.len

abbrev pub HeaderInside : ℕ → ℕ → MgStr × MgStr → Type 0
HeaderInside base n (name, value) = IsInside base n name × IsInside base n value

-- All views lie in the message, which begins at `base` and is `n` bytes long.
pub record IsMessage (base n : ℕ) (msg : HttpMessage) : Type 0 where
  pub method_inside : IsInside base n msg.method
  pub uri_inside : IsInside base n msg.uri
  pub query_inside : IsInside base n msg.query
  pub proto_inside : IsInside base n msg.proto
  pub headers_inside : All (HeaderInside base n) msg.headers
  pub body_inside : IsInside base n msg.body

-- The second memory holds, from `to` on, the bytes that the first one has from `from` on.
abbrev pub Copies : (ℕ → ℕ) → (ℕ → ℕ) → ℕ → ℕ → ℕ → Type 0
Copies mem mem' from to n = (i : ℕ) → i < n → mem' (to + i) ≡ mem (from + i)

read_from-copy :
    (mem mem' : ℕ → ℕ) (from to n b len : ℕ)
    → Copies mem mem' from to n
    → from ≤ b
    → b + len ≤ from + n
    → read_from mem' (b + to - from) len ≡ read_from mem b len
read_from-copy mem mem' from to n b zero h lo hi = refl
read_from-copy mem mem' from to n b (suc len) h lo hi =
    let shifted : b + to - from ≡ to + (b - from) = omega arith in
    let back : from + (b - from) ≡ b = omega arith in
    let moved : b + to - from + 1 ≡ b + 1 + to - from = omega arith in
    let first : mem' (b + to - from) ≡ mem b =
      ap mem' shifted ∙ h (b - from) (omega arith) ∙ ap mem back in
    let rest : read_from mem' (b + to - from + 1) len ≡ read_from mem (b + 1) len =
      ap (λ z. read_from mem' z len) moved
      ∙ read_from-copy mem mem' from to n (b + 1) len h (omega arith) (omega arith) in
    ap (λ z. z ∷ read_from mem' (b + to - from + 1) len) first ∙ ap (◌∷◌ (mem b)) rest

pointer-some : (a : ℕ) → 0 < a → pointer a ≡ some a
pointer-some zero h = absurd (omega arith)
pointer-some (suc a) h = refl

module _ (mem mem' : ℕ → ℕ) (from to n : ℕ) (copied : Copies mem mem' from to n)
    (real : 0 < to) where
  text-rebase : (v : MgStr) → IsInside from n v → text mem' (rebase from to v) ≡ text mem v
  unfolding rebase
  text-rebase v i = go v.buf v.len i
    where
      go :
          (o : Option ℕ) (len : ℕ)
          → IsAt from n o len
          → text mem' (rebase from to (record { buf = o; len = len })) ≡ shown mem o len
      go none len h = refl
      go (some b) len h =
          ap (λ z. shown mem' z len) (pointer-some (b + to - from) (omega (arith, h.0, real)))
          ∙ read_from-copy mem mem' from to n b len copied h.0 h.1

  params-rebase :
      (vs : List MgStr)
      → All (IsInside from n) vs
      → (index : ℕ)
      → Option.map (text mem') (get_elem? (map (rebase from to) vs) index)
        ≡ get_elem? (map (text mem) vs) index
  params-rebase [] h index = refl
  params-rebase (v ∷ vs) h zero = ap some (text-rebase v h.0)
  params-rebase (v ∷ vs) h (suc index) = params-rebase vs h.1 index

  null_rebase : (v : MgStr) → IsInside from n v → is_null (rebase from to v).buf ≡ is_null v.buf
  unfolding rebase
  null_rebase v i = go v.buf v.len i
    where
      go :
          (o : Option ℕ) (len : ℕ)
          → IsAt from n o len
          → is_null (rebase from to (record { buf = o; len = len })).buf ≡ is_null o
      go none len h = refl
      go (some b) len h = ap is_null (pointer-some (b + to - from) (omega (arith, h.0, real)))

  header_texts-rebase :
      (hs : List (MgStr × MgStr))
      → All (HeaderInside from n) hs
      → header_texts mem' (rebase_headers from to hs) ≡ header_texts mem hs
  unfolding rebase_headers
  header_texts-rebase [] h = refl
  header_texts-rebase ((name, value) ∷ rest) h = elim (Bool-cases (is_null name.buf)) [
    | inl p ↦ rw (null_rebase name h.0.0) (rw p)
    | inr p ↦ rw (null_rebase name h.0.0) (
        rw p (
          ap
            (λ z.
              (z, text mem' (rebase from to value))
              ∷ header_texts mem' (rebase_headers from to rest))
            (text-rebase name h.0.0)
          ∙ ap (λ z. (text mem name, z) ∷ header_texts mem' (rebase_headers from to rest))
              (text-rebase value h.0.1)
          ∙ ap (◌∷◌ (text mem name, text mem value)) (header_texts-rebase rest h.1)))
  ]

-- The pointer points at a certificate, and at this place there is none any more.
abbrev pub expired : Certs → WeakCert → Bool
expired certs none = true
expired certs (some place) = not (is_some (certs place))

-- Between the two stores, certificates were at most released.
abbrev pub Releases : Certs → Certs → Type 0
Releases certs later = (place : ℕ) → (later place ≡ certs place) ⊎ (later place ≡ none)

lock_later :
    (certs later : Certs) (p : WeakCert)
    → Releases certs later
    → lock later p ≡ (if expired later p then none else lock certs p)
unfolding lock
lock_later certs later none r = refl
lock_later certs later (some place) r = elim (r place) [
  | inl e ↦ rw e (go (certs place))
  | inr e ↦ rw e
]
  where
    go : (o : Option TlsCertInfo) → o ≡ (if not (is_some o) then none else o)
    go none = refl
    go (some info) = refl

-- The request that a handler sees, while `mem` is the memory and its connection owns the certificate.
abbrev pub seen : (ℕ → ℕ) → Certs → HttpMessage → List MgStr → Bytes → WeakCert → Request
seen mem certs msg groups ip tls_cert_info = record {
  msg = record {
    method = text mem msg.method;
    uri = text mem msg.uri;
    query = text mem msg.query;
    proto = text mem msg.proto;
    headers = header_texts mem msg.headers;
    body = text mem msg.body;
  };
  groups = map (text mem) groups;
  ip = ip;
  tls_cert_info = lock certs tls_cert_info;
}

-- The copy of a request answers each accessor, in any later memory that still holds the copy, whatever
-- became of the message itself, as the request did when it was copied: the address, the method, the
-- path, the query, the version, the body, the capture at each index, out of range included, and the
-- headers up to the first that is null; and the destructor frees the copy's own buffer. The
-- certificate is not copied: locking the pointer gives the request's certificate while it is owned,
-- and null once it has been released. All views lie in the message, and `mg_strdup` returned memory.
pub copy_outlives_message :
    (mem mem' : ℕ → ℕ) (certs later : Certs) (from to : ℕ) (msg : HttpMessage) (groups : List MgStr)
    (ip : Bytes) (tls_cert_info : WeakCert)
    → IsMessage from msg.message.len msg
    → All (IsInside from msg.message.len) groups
    → Copies mem mem' from to msg.message.len
    → 0 < to
    → Releases certs later
    → let copied : MgStr = record { buf = some to; len = msg.message.len } in
      let copy = AsyncRequest.new from copied msg groups ip tls_cert_info in
      let original = seen mem certs msg groups ip tls_cert_info in
      (text mem' (AsyncRequest.method copy) ≡ Request.method original)
      × (text mem' (AsyncRequest.uri copy) ≡ Request.uri original)
      × (text mem' (AsyncRequest.query copy) ≡ Request.query original)
      × (text mem' (AsyncRequest.version copy) ≡ Request.version original)
      × (text mem' (AsyncRequest.body copy) ≡ Request.body original)
      × (header_texts mem' copy.msg.headers ≡ original.msg.headers)
      × ((index : ℕ)
          → Option.map (text mem') (AsyncRequest.get_param copy index)
            ≡ Request.get_param original index)
      × (AsyncRequest.get_remote_ip copy ≡ Request.get_remote_ip original)
      × (lock later (AsyncRequest.get_tls_cert_info copy)
          ≡ (if expired later tls_cert_info then none else Request.get_tls_cert_info original))
      × (AsyncRequest.destroy copy ≡ some to)
unfolding AsyncRequest.new AsyncRequest.destroy AsyncRequest.method AsyncRequest.uri
    AsyncRequest.query AsyncRequest.version AsyncRequest.body AsyncRequest.get_param
    AsyncRequest.get_remote_ip AsyncRequest.get_tls_cert_info Request.method Request.uri
    Request.query Request.version Request.body Request.get_param Request.get_remote_ip
    Request.get_tls_cert_info
copy_outlives_message mem mem' certs later from to msg groups ip tls_cert_info m g copied real r =
    let same = text-rebase mem mem' from to msg.message.len copied real in
    (
      same msg.method m.method_inside,
      same msg.uri m.uri_inside,
      same msg.query m.query_inside,
      same msg.proto m.proto_inside,
      same msg.body m.body_inside,
      header_texts-rebase mem mem' from to msg.message.len copied real msg.headers m.headers_inside,
      params-rebase mem mem' from to msg.message.len copied real groups g,
      refl,
      lock_later certs later tls_cert_info r,
      refl,
    )

-- Where `mg_strdup` returned null, a view that is not null keeps its length and points at its
-- distance from the begin of the message.
null_copy_dangles :
    (from b len : ℕ) (msg : HttpMessage) (groups : List MgStr) (ip : Bytes) (cert : WeakCert)
    → msg.body ≡ record { buf = some b; len = len }
    → AsyncRequest.body (AsyncRequest.new from blank msg groups ip cert)
      ≡ record { buf = pointer (b - from); len = len }
unfolding AsyncRequest.new AsyncRequest.body rebase
null_copy_dangles from b len msg groups ip cert e =
    let shift : b + 0 ≡ b = omega arith in rw (e, shift)
