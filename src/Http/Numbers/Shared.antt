-- ===== src/Http/Numbers/Shared.antt =====
-- Changes of one shared object.
use mongoose_cpp.Prelude.{
  false, ℕ, ◌≡◌, refl, Option, none, some, get_elem?, map-set_same, Option-cases, inl, inr,
}
use mongoose_cpp.Http.AsyncStream.{AsyncStream}
use mongoose_cpp.Http.AsyncResponse.{AsyncResponse}
use mongoose_cpp.Http.AsyncResponse.State.{is_pending}
use mongoose_cpp.Http.Endpoint.State.{
  System, deref_response, deref_stream, put_response, put_stream,
}
use mongoose_cpp.Http.Isolation.{Leaves}
use mongoose_cpp.Http.Numbers.{Settles-refl, response_tag, stream_tag, Unnumbered, Settles-set}

-- What a pointer leads to.
pub deref_response-Leaves :
    (s : System) (ref : ℕ) → Leaves (λ r. get_elem? s.responses ref ≡ some r) (deref_response s ref)
unfolding deref_response
deref_response-Leaves s ref = elim (Option-cases (get_elem? s.responses ref)) [
  | inl e ↦ rw (e, deref_response) tt
  | inr (r, e) ↦ rw (e, deref_response) refl
]

abbrev pub StreamAt : System → Option ℕ → AsyncStream → Type 0
StreamAt s ref x = (k : ℕ) × (ref ≡ some k) × (get_elem? s.streams k ≡ some x)

pub deref_stream-Leaves :
    (s : System) (ref : Option ℕ) → Leaves (StreamAt s ref) (deref_stream s ref)
unfolding deref_stream
deref_stream-Leaves s none = tt
deref_stream-Leaves s (some k) = elim (Option-cases (get_elem? s.streams k)) [
  | inl e ↦ rw (e, deref_stream) tt
  | inr (x, e) ↦ rw (e, deref_stream) (k, refl, e)
]

pub put_response-Unnumbered :
    (s : System) (ref : ℕ) (r r' : AsyncResponse)
    → get_elem? s.responses ref ≡ some r
    → response_tag r' ≡ response_tag r
    → (is_pending r.state ≡ false → is_pending r'.state ≡ false)
    → Unnumbered s (put_response s ref r')
unfolding put_response
put_response-Unnumbered s ref r r' h e keep = (
  refl,
  map-set_same s.responses response_tag ref r' h e,
  refl,
  Settles-set s.responses ref r r' h e keep,
)

pub put_stream-Unnumbered :
    (s : System) (ref : Option ℕ) (x x' : AsyncStream)
    → StreamAt s ref x
    → stream_tag x' ≡ stream_tag x
    → Unnumbered s (put_stream s ref x')
unfolding put_stream
put_stream-Unnumbered s none x x' (k, p, h) e = (refl, refl, refl, Settles-refl s.responses)
put_stream-Unnumbered s (some j) x x' (k, p, h) e =
    let here : get_elem? s.streams j ≡ some x = cc (p, h) in
    (refl, refl, map-set_same s.streams stream_tag j x' here e, Settles-refl s.responses)
