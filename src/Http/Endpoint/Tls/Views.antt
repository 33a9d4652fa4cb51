-- ===== src/Http/Endpoint/Tls/Views.antt =====
-- What goes wrong where use_tls is called with strings first and with views later.
use mongoose_cpp.Prelude.{◌≡◌, refl, sym, subst, true, List, [], ◌∷◌, ◌++◌, if◌then◌else◌}
use mongoose_cpp.Mongoose.{Pointer, MgStr}
use mongoose_cpp.Http.Endpoint.State.{Endpoint}
use mongoose_cpp.Http.Endpoint.Tls.{
  UseTls, tls, mtls, tls_view, mtls_view, is_mtls, use_tls_call, use_all, destroy,
}

-- The calls with strings.
abbrev pub IsString : UseTls → Type 0
IsString (tls cert key) = Unit
IsString (mtls ca cert key) = Unit
IsString _ = ⊥

call-keeps_alloc :
    (e : Endpoint) (call : UseTls) → e.tls_alloc ≡ true → (use_tls_call e call).tls_alloc ≡ true
unfolding use_tls_call
call-keeps_alloc e (tls cert key) h = refl
call-keeps_alloc e (mtls ca cert key) h = refl
call-keeps_alloc e (tls_view cert key) h = h
call-keeps_alloc e (mtls_view ca cert key) h = h

use_all-keeps_alloc :
    (e : Endpoint) (calls : List UseTls) → e.tls_alloc ≡ true → (use_all e calls).tls_alloc ≡ true
unfolding use_all
use_all-keeps_alloc e [] h = h
use_all-keeps_alloc e (call ∷ calls) h =
    use_all-keeps_alloc (use_tls_call e call) calls (call-keeps_alloc e call h)

use_all-append :
    (e : Endpoint) (first second : List UseTls)
    → use_all e (first ++ second) ≡ use_all (use_all e first) second
unfolding use_all
use_all-append e [] second = refl
use_all-append e (call ∷ first) second = use_all-append (use_tls_call e call) first second

string_allocates :
    (e : Endpoint) (call : UseTls) → IsString call → (use_tls_call e call).tls_alloc ≡ true
unfolding use_tls_call
string_allocates e (tls cert key) h = refl
string_allocates e (mtls ca cert key) h = refl
string_allocates e (tls_view cert key) h = elim h [ ]
string_allocates e (mtls_view ca cert key) h = elim h [ ]

ends_with_views :
    (e : Endpoint) (cert key : MgStr)
    → e.tls_alloc ≡ true
    → (others : List Pointer) × ((destroy (use_all e (tls_view cert key ∷ []))).0
        ≡ others ++ cert.buf ∷ key.buf ∷ [])
unfolding use_all use_tls_call destroy
ends_with_views e cert key h =
    let last = use_tls_call e (tls_view cert key) in
    (if is_mtls last then last.tls_ca.buf ∷ [] else [], rw h refl)

-- After a call of `use_tls` with strings, and any further calls, a call with views of a certificate and
-- a key makes the destructor free the memory of these two views.
pub frees_views :
    (e : Endpoint) (first : UseTls) (calls : List UseTls) (cert key : MgStr)
    → IsString first
    → let last = use_all e (first ∷ (calls ++ tls_view cert key ∷ [])) in
      (others : List Pointer) × ((destroy last).0 ≡ others ++ cert.buf ∷ key.buf ∷ [])
unfolding use_all
frees_views e first calls cert key h =
    subst
      (λ (last : Endpoint).
        (others : List Pointer) × ((destroy last).0 ≡ others ++ cert.buf ∷ key.buf ∷ []))
      (sym (use_all-append (use_tls_call e first) calls (tls_view cert key ∷ [])))
      (ends_with_views (use_all (use_tls_call e first) calls) cert key
        (use_all-keeps_alloc (use_tls_call e first) calls (string_allocates e first h)))
