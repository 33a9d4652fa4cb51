-- ===== src/Http/Numbers.antt =====
-- The numbers that the endpoint gives to asynchronous responses, and that their wake-ups carry:
-- m_request_counter of include/mgxx/http/endpoint.hpp.
pub mod Shared
pub mod Users
pub mod Wakeup
pub mod Events
pub mod Message
pub mod World
pub mod Names
use mongoose_cpp.Prelude.{
  ℕ, ◌==◌, ==_iff, ◌+◌, ◌%◌, ◌^◌, ◌≡◌, refl, ◌∙◌, sym, ap, subst, false, List, [], ◌∷◌, ◌++◌, some,
  arith, length, length-append, map, get_elem?, get_elem?-lt, get_elem?-append_left, set,
  get_elem?-set_self, get_elem?-set_ne, get_elem?-append_place, Bool-cases, inl, inr,
}
use mongoose_cpp.Mongoose.{Signal}
use mongoose_cpp.Http.AsyncStream.{AsyncStream}
use mongoose_cpp.Http.AsyncResponse.{AsyncResponse}
use mongoose_cpp.Http.AsyncResponse.State.{is_pending}
use mongoose_cpp.Http.Endpoint.State.{System}

-- What a shared object posts with its wake-ups.
abbrev pub response_tag : AsyncResponse → Signal
response_tag r = (r.conn, r.id)

abbrev pub stream_tag : AsyncStream → Signal
stream_tag x = (x.conn, x.id)

abbrev pub response_tags : System → List Signal
response_tags s = map response_tag s.responses

abbrev pub stream_tags : System → List Signal
stream_tags s = map stream_tag s.streams

-- The counter says how many responses were made, and each has its place as its number.
abbrev IsCounted : ℕ → List Signal → Type 0
IsCounted counter made =
    (counter ≡ length made % 2 ^ 64)
    × ((i : ℕ) (tag : Signal) → get_elem? made i ≡ some tag → tag.1 ≡ i % 2 ^ 64)

-- A response with the tag has left `pending`.
abbrev pub Maker : List AsyncResponse → Signal → Type 0
Maker rs tag =
    (i : ℕ) × (r : AsyncResponse) × (get_elem? rs i ≡ some r)
    × (response_tag r ≡ tag)
    × (is_pending r.state ≡ false)

abbrev AreMade : List AsyncResponse → List Signal → Type 0
AreMade rs streams = (k : ℕ) (tag : Signal) → get_elem? streams k ≡ some tag → Maker rs tag

-- The responses are counted, and each stream has the connection and the number of a response that has
-- left `pending`.
abbrev pub IsNumbered : System → Type 0
IsNumbered s = IsCounted s.request_counter (response_tags s) × AreMade s.responses (stream_tags s)

-- Every response is still there under its tag, and none goes back to `pending`.
abbrev pub Settles : List AsyncResponse → List AsyncResponse → Type 0
Settles rs rs' =
    (i : ℕ) (r : AsyncResponse)
    → get_elem? rs i ≡ some r
    → (r' : AsyncResponse) × (get_elem? rs' i ≡ some r')
      × (response_tag r' ≡ response_tag r)
      × (is_pending r.state ≡ false → is_pending r'.state ≡ false)

pub Settles-refl : (rs : List AsyncResponse) → Settles rs rs
Settles-refl rs i r h = (r, h, refl, λ p. p)

Settles-trans : (as' bs cs : List AsyncResponse) → Settles as' bs → Settles bs cs → Settles as' cs
Settles-trans as' bs cs f g i r h =
    let (q, hq, tq, pq) = f i r h in
    let (z, hz, tz, pz) = g i q hq in (z, hz, tz ∙ tq, λ p. pz (pq p))

pub Settles-set :
    (rs : List AsyncResponse) (k : ℕ) (r r' : AsyncResponse)
    → get_elem? rs k ≡ some r
    → response_tag r' ≡ response_tag r
    → (is_pending r.state ≡ false → is_pending r'.state ≡ false)
    → Settles rs (set rs k r')
Settles-set rs k r r' h tag keep i q hq = elim (Bool-cases (k == i)) [
  | inl p ↦
      let e : k ≡ i = (==_iff k i).0 p in
      let same : r ≡ q = cc (h, hq, e) in
      (
        r',
        ap (get_elem? (set rs k r')) (sym e) ∙ get_elem?-set_self rs k r' (get_elem?-lt rs k h),
        tag ∙ ap response_tag same,
        λ z. keep (ap (λ y. is_pending y.state) same ∙ z),
      )
  | inr p ↦ (q, get_elem?-set_ne rs r' (λ e. ground arith) ∙ hq, refl, λ z. z)
]

Settles-append : (rs new : List AsyncResponse) → Settles rs (rs ++ new)
Settles-append rs new i r h =
    (r, get_elem?-append_left rs new i (get_elem?-lt rs i h) ∙ h, refl, λ p. p)

pub AreMade-Settles :
    (rs rs' : List AsyncResponse) (streams : List Signal)
    → Settles rs rs'
    → AreMade rs streams
    → AreMade rs' streams
AreMade-Settles rs rs' streams f made k tag h =
    let (i, r, hr, tr, pr) = made k tag h in
    let (q, hq, tq, pq) = f i r hr in (i, q, hq, tq ∙ tr, pq pr)

-- The step makes no object and counts nothing.
abbrev pub Unnumbered : System → System → Type 0
Unnumbered s t =
    (t.request_counter ≡ s.request_counter)
    × (response_tags t ≡ response_tags s)
    × (stream_tags t ≡ stream_tags s)
    × Settles s.responses t.responses

pub Unnumbered-trans : (s t u : System) → Unnumbered s t → Unnumbered t u → Unnumbered s u
Unnumbered-trans s t u (a, b, c, f) (d, e, k, g) =
    (d ∙ a, e ∙ b, k ∙ c, Settles-trans s.responses t.responses u.responses f g)

abbrev pub Renumbers : System → System → Type 0
Renumbers s t = IsNumbered s → IsNumbered t

pub Unnumbered-Renumbers : (s t : System) → Unnumbered s t → Renumbers s t
Unnumbered-Renumbers s t (a, b, c, f) (counted, made) =
    (rw a (rw b counted), rw c (AreMade-Settles s.responses t.responses (stream_tags s) f made))

-- A response more, under the next number.
pub IsCounted-new :
    (made : List Signal) (counter conn : ℕ)
    → IsCounted counter made
    → IsCounted ((counter + 1) % 2 ^ 64) (made ++ (conn, counter) ∷ [])
IsCounted-new made counter conn (counted, placed) = (
  omega (arith, length-append made ((conn, counter) ∷ [])),
  λ i tag h. elim (get_elem?-append_place made (conn, counter) i h) [
    | inl old ↦ placed i tag old
    | inr (p, e) ↦ ap (λ z. z.1) (sym e) ∙ counted ∙ ap (λ z. z % 2 ^ 64) (sym p)
  ],
)

pub AreMade-append :
    (rs new : List AsyncResponse) (streams : List Signal)
    → AreMade rs streams
    → AreMade (rs ++ new) streams
AreMade-append rs new streams = AreMade-Settles rs (rs ++ new) streams (Settles-append rs new)

-- A stream more, with the tag of a response.
pub AreMade-stream :
    (rs : List AsyncResponse) (streams : List Signal) (tag : Signal)
    → Maker rs tag
    → AreMade rs streams
    → AreMade rs (streams ++ tag ∷ [])
AreMade-stream rs streams tag maker made k other e = elim (get_elem?-append_place streams tag k e) [
  | inl old ↦ made k other old
  | inr (p, q) ↦ subst (Maker rs) q maker
]
