-- ===== src/Http/Lost.antt =====
-- A response whose connection is closed: no event loop, user or producer brings it back.
-- src/http/endpoint.cpp, handle_close and what may follow it.
pub mod Users
pub mod Wakeup
pub mod Events
pub mod Message
pub mod World
pub mod Forever
use mongoose_cpp.Prelude.{
  ℕ, ◌==◌, ==_iff, ◌≡◌, ◌≢◌, refl, ◌∙◌, ap, sym, subst, true, false, List, [], ◌∷◌, ◌++◌, Option,
  none, some, arith, get_elem?, set, get_elem?-lt, get_elem?-set_self, get_elem?-set_ne,
  get_elem?-append_left, Bool-cases, inl, inr,
}
use mongoose_cpp.Table.{Table, find}
use mongoose_cpp.Table.Keys.{nat_key}
use mongoose_cpp.Table.Values.{AllValues}
use mongoose_cpp.Mongoose.{MgCall}
use mongoose_cpp.Http.AsyncStream.{AsyncStream}
use mongoose_cpp.Http.AsyncResponse.{AsyncResponse}
use mongoose_cpp.Http.AsyncResponse.State.{ResponseState}
use mongoose_cpp.Http.Endpoint.State.{System, Responses, put_response, put_stream, emit}
use mongoose_cpp.Http.Safety.Close.{FailedAt}

-- No entry of a connection's map, and no entry at all, leads to the response.
abbrev pub IsAbsentIn : ℕ → Responses → Type 0
IsAbsentIn ref t = AllValues nat_key (λ v. v ≢ ref) t

abbrev pub IsAbsent : ℕ → Table ℕ Responses → Type 0
IsAbsent ref m = AllValues nat_key (IsAbsentIn ref) m

-- The response has failed and is not pending.
abbrev pub IsLost : ℕ → System → Type 0
IsLost ref s = FailedAt s.responses ref × IsAbsent ref s.pending_responses

-- Another response is written, or one that had not failed before, or it stays failed.
pub FailedAt-set_ne :
    (rs : List AsyncResponse) (k ref : ℕ) (r : AsyncResponse)
    → k ≢ ref
    → FailedAt rs ref
    → FailedAt (set rs k r) ref
FailedAt-set_ne rs k ref r ne (q, h, f) = (q, get_elem?-set_ne rs r ne ∙ h, f)

pub FailedAt-set_same :
    (rs : List AsyncResponse) (k ref : ℕ) (r r' : AsyncResponse)
    → get_elem? rs k ≡ some r
    → (r.state ≡ ResponseState.failed → r'.state ≡ ResponseState.failed)
    → FailedAt rs ref
    → FailedAt (set rs k r') ref
FailedAt-set_same rs k ref r r' h keep (q, hq, f) = elim (Bool-cases (k == ref)) [
  | inl p ↦
      let e : k ≡ ref = (==_iff k ref).0 p in
      let same : q ≡ r = cc (h, hq, e) in
      subst (FailedAt (set rs k r')) e (
        r',
        get_elem?-set_self rs k r' (get_elem?-lt rs k h),
        keep (ap (λ z. z.state) (sym same) ∙ f),
      )
  | inr p ↦ FailedAt-set_ne rs k ref r' (λ e. ground arith) (q, hq, f)
]

pub FailedAt-append :
    (rs new : List AsyncResponse) (ref : ℕ) → FailedAt rs ref → FailedAt (rs ++ new) ref
FailedAt-append rs new ref (q, h, f) =
    (q, get_elem?-append_left rs new ref (get_elem?-lt rs ref h) ∙ h, f)

pub put_response-IsLost :
    (s : System) (k ref : ℕ) (r : AsyncResponse)
    → k ≢ ref
    → IsLost ref s
    → IsLost ref (put_response s k r)
unfolding put_response
put_response-IsLost s k ref r ne (f, a) = (FailedAt-set_ne s.responses k ref r ne f, a)

pub put_stream-IsLost :
    (s : System) (p : Option ℕ) (ref : ℕ) (x : AsyncStream)
    → IsLost ref s
    → IsLost ref (put_stream s p x)
unfolding put_stream
put_stream-IsLost s none ref x h = h
put_stream-IsLost s (some k) ref x h = h

pub emit-IsLost : (s : System) (ref : ℕ) (call : MgCall) → IsLost ref s → IsLost ref (emit s call)
unfolding emit
emit-IsLost s ref call h = h
