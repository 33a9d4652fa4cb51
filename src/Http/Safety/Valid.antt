-- ===== src/Http/Safety/Valid.antt =====
-- Pointers from the pending maps into the lists of shared objects, and the changes to these lists
-- that leave the pointers good.
use mongoose_cpp.Prelude.{
  ℕ, ◌==◌, ==_iff, ◌≡◌, refl, ◌∙◌, ap, sym, true, List, ◌++◌, Option, some, arith, get_elem?, set,
  subst, get_elem?-lt, get_elem?-set_self, get_elem?-set_ne, get_elem?-append_left, Bool-cases, inl,
  inr,
}
use mongoose_cpp.Http.AsyncStream.{AsyncStream}
use mongoose_cpp.Http.AsyncResponse.{AsyncResponse}
use mongoose_cpp.Http.AsyncResponse.State.{is_streaming}

-- The pointer is not null, and its stream belongs to the connection and the number.
abbrev pub ValidStream : List AsyncStream → Option ℕ → ℕ → ℕ → Type 0
ValidStream xs ref conn id =
    (k : ℕ) × (x : AsyncStream) × (ref ≡ some k)
    × (get_elem? xs k ≡ some x)
    × (x.conn ≡ conn)
    × (x.id ≡ id)

-- A response that streams has its stream.
abbrev pub HasStream : List AsyncStream → AsyncResponse → Type 0
HasStream xs r = is_streaming r.state ≡ true → ValidStream xs r.stream r.conn r.id

abbrev pub ValidResponse : List AsyncResponse → List AsyncStream → ℕ → ℕ → ℕ → Type 0
ValidResponse rs xs ref conn id =
    (r : AsyncResponse) × (get_elem? rs ref ≡ some r)
    × (r.conn ≡ conn)
    × (r.id ≡ id)
    × HasStream xs r

-- Every stream is still there, under its connection and number.
abbrev pub Keeps : List AsyncStream → List AsyncStream → Type 0
Keeps xs ys =
    (k : ℕ) (x : AsyncStream)
    → get_elem? xs k ≡ some x
    → (y : AsyncStream) × (get_elem? ys k ≡ some y) × (y.conn ≡ x.conn) × (y.id ≡ x.id)

pub Keeps-refl : (xs : List AsyncStream) → Keeps xs xs
Keeps-refl xs k x h = (x, h, refl, refl)

pub Keeps-trans : (xs ys zs : List AsyncStream) → Keeps xs ys → Keeps ys zs → Keeps xs zs
Keeps-trans xs ys zs p q k x h =
    let (y, hy, cy, iy) = p k x h in let (z, hz, cz, iz) = q k y hy in (z, hz, cz ∙ cy, iz ∙ iy)

pub Keeps-set :
    (xs : List AsyncStream) (k : ℕ) (x y : AsyncStream)
    → get_elem? xs k ≡ some x
    → y.conn ≡ x.conn
    → y.id ≡ x.id
    → Keeps xs (set xs k y)
Keeps-set xs k x y h c i j z hz = elim (Bool-cases (k == j)) [
  | inl same ↦
      let e : k ≡ j = (==_iff k j).0 same in
      (
        y,
        ap (get_elem? (set xs k y)) (sym e) ∙ get_elem?-set_self xs k y (get_elem?-lt xs k h),
        cc (h, hz, c),
        cc (h, hz, i),
      )
  | inr other ↦ (z, get_elem?-set_ne xs y (λ e. ground arith) ∙ hz, refl, refl)
]

pub Keeps-append : (xs ys : List AsyncStream) → Keeps xs (xs ++ ys)
Keeps-append xs ys k x h = (x, get_elem?-append_left xs ys k (get_elem?-lt xs k h) ∙ h, refl, refl)

pub ValidStream-Keeps :
    (xs ys : List AsyncStream) (ref : Option ℕ) (conn id : ℕ)
    → Keeps xs ys
    → ValidStream xs ref conn id
    → ValidStream ys ref conn id
ValidStream-Keeps xs ys ref conn id keep (k, x, e, h, c, i) =
    let (y, hy, cy, iy) = keep k x h in (k, y, e, hy, cy ∙ c, iy ∙ i)

pub ValidResponse-Keeps :
    (rs : List AsyncResponse) (xs ys : List AsyncStream) (ref conn id : ℕ)
    → Keeps xs ys
    → ValidResponse rs xs ref conn id
    → ValidResponse rs ys ref conn id
ValidResponse-Keeps rs xs ys ref conn id keep (r, h, c, i, streaming) =
    (r, h, c, i, λ st. ValidStream-Keeps xs ys r.stream r.conn r.id keep (streaming st))

-- A response is replaced by one under the same connection and number, which has its stream if the old
-- one has.
pub ValidResponse-set :
    (rs : List AsyncResponse) (xs : List AsyncStream) (k : ℕ) (r r' : AsyncResponse)
    → get_elem? rs k ≡ some r
    → r'.conn ≡ r.conn
    → r'.id ≡ r.id
    → (HasStream xs r → HasStream xs r')
    → (ref conn id : ℕ) → ValidResponse rs xs ref conn id
    → ValidResponse (set rs k r') xs ref conn id
ValidResponse-set rs xs k r r' h c i keep ref conn id (q, hq, cq, iq, streaming) =
    elim (Bool-cases (k == ref)) [
      | inl same ↦
          let e : k ≡ ref = (==_iff k ref).0 same in
          let p : r ≡ q = cc (h, hq, e) in
          (
            r',
            ap (get_elem? (set rs k r')) (sym e) ∙ get_elem?-set_self rs k r' (get_elem?-lt rs k h),
            c ∙ ap (λ z. z.conn) p ∙ cq,
            i ∙ ap (λ z. z.id) p ∙ iq,
            keep (subst (HasStream xs) (sym p) streaming),
          )
      | inr other ↦ (q, get_elem?-set_ne rs r' (λ e. ground arith) ∙ hq, cq, iq, streaming)
    ]

pub ValidResponse-append :
    (rs new : List AsyncResponse) (xs : List AsyncStream) (ref conn id : ℕ)
    → ValidResponse rs xs ref conn id
    → ValidResponse (rs ++ new) xs ref conn id
ValidResponse-append rs new xs ref conn id (r, h, c, i, streaming) =
    (r, get_elem?-append_left rs new ref (get_elem?-lt rs ref h) ∙ h, c, i, streaming)
