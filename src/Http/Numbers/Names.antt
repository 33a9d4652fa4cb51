-- ===== src/Http/Numbers/Names.antt =====
-- What a number names: the entries of the pending maps that a wake-up with it can reach.
use mongoose_cpp.Prelude.{
  true, none, Option-cases, ℕ, ◌^◌, ◌<◌, ◌≡◌, ◌∙◌, sym, Option, some, arith, length, length-map,
  get_elem?, get_elem?-lt, get_elem?-map, inl, inr, ◌⊎◌,
}
use mongoose_cpp.Http.AsyncResponse.{AsyncResponse}
use mongoose_cpp.Http.AsyncResponse.State.{is_pending}
use mongoose_cpp.Http.Endpoint.State.{System, Env}
use mongoose_cpp.Http.Endpoint.Wakeup.Lookup.{find_at}
use mongoose_cpp.Http.Safety.Inv.{Inv}
use mongoose_cpp.Http.Safety.Message.{CapturesFit}
use mongoose_cpp.Http.Safety.Reach.{World, Reach, start, Reach-WorldInv}
use mongoose_cpp.Http.Numbers.{response_tag, stream_tag, response_tags, IsNumbered}
use mongoose_cpp.Http.Numbers.World.{Reach-IsNumbered}

-- A response or a stream is pending on the connection under the number.
abbrev pub IsPendingAt : ℕ → ℕ → System → Type 0
IsPendingAt conn id s =
    ((ref : ℕ) × (find_at conn id s.pending_responses ≡ some ref))
    ⊎ ((ref : Option ℕ) × (find_at conn id s.pending_streams ≡ some ref))

-- The place of a response that has the connection and the number.
abbrev PlaceOf : ℕ → ℕ → System → Type 0
PlaceOf conn id s = (i : ℕ) × (get_elem? (response_tags s) i ≡ some (conn, id))

response-PlaceOf :
    (s : System) (conn id ref : ℕ)
    → Inv s
    → find_at conn id s.pending_responses ≡ some ref
    → get_elem? (response_tags s) ref ≡ some (conn, id)
response-PlaceOf s conn id ref v e =
    let (r, h, c, i, _) = v.responses_valid conn id ref e in
    get_elem?-map s.responses response_tag ref h ∙ cc (c, i)

pending-PlaceOf :
    (s : System) (conn id : ℕ) → Inv s → IsNumbered s → IsPendingAt conn id s → PlaceOf conn id s
pending-PlaceOf s conn id v n (inl (ref, e)) = (ref, response-PlaceOf s conn id ref v e)
pending-PlaceOf s conn id v (_, made) (inr (ref, e)) =
    let (k, x, p, h, c, i) = v.streams_valid conn id ref e in
    let (place, q, hq, tag, _) = made k (stream_tag x) (get_elem?-map s.streams stream_tag k h) in
    (place, get_elem?-map s.responses response_tag place hq ∙ cc (tag, c, i))

-- Before the counter wraps around, the number of a response is its place.
place_number :
    (s : System) (conn id i : ℕ)
    → IsNumbered s
    → length s.responses < 2 ^ 64
    → get_elem? (response_tags s) i ≡ some (conn, id)
    → (id ≡ i) × (i < length s.responses)
place_number s conn id i ((_, placed), _) small h =
    let bound = get_elem?-lt (response_tags s) i h in
    let size = length-map s.responses response_tag in
    let e = placed i (conn, id) h in (omega arith, omega arith)

-- No stream is pending under the number of a response that waits for its answer.
pub no_stream_yet :
    (s : System) (conn id ref : ℕ) (r : AsyncResponse)
    → Inv s
    → IsNumbered s
    → length s.responses < 2 ^ 64
    → find_at conn id s.pending_responses ≡ some ref
    → get_elem? s.responses ref ≡ some r
    → is_pending r.state ≡ true
    → find_at conn id s.pending_streams ≡ none
no_stream_yet s conn id ref r v n small e h waits =
    elim (Option-cases (find_at conn id s.pending_streams)) [
      | inl none_here ↦ none_here
      | inr (p, q) ↦
          let (k, x, _, hx, c, i) = v.streams_valid conn id p q in
          let tag = get_elem?-map s.streams stream_tag k hx in
          let (place, z, hz, tz, left) = n.1 k (stream_tag x) tag in
          let there : get_elem? (response_tags s) place ≡ some (conn, id) =
            get_elem?-map s.responses response_tag place hz ∙ cc (tz, c, i) in
          let (first, _) = place_number s conn id place n small there in
          let (second, _) =
            place_number s conn id ref n small (response-PlaceOf s conn id ref v e) in
          let same : z ≡ r = cc (hz, h, first, second) in cc (same, left, waits)
    ]

-- While fewer than 2^64 asynchronous responses were made, in every world that a new endpoint reaches:
-- the number that the next response gets is pending on no connection, as a response or as a stream; a
-- number is pending on one connection at most; and where a response is pending under a number, it is
-- the one that was made under that number, counted from zero.
pub number_names_one :
    (env : Env) {w : World}
    → CapturesFit env
    → Reach env start w
    → length w.system.responses < 2 ^ 64
    → ((conn : ℕ) → IsPendingAt conn w.system.request_counter w.system → ⊥)
      × ((conn conn' id : ℕ)
          → IsPendingAt conn id w.system
          → IsPendingAt conn' id w.system
          → conn ≡ conn')
      × ((conn id ref : ℕ) → find_at conn id w.system.pending_responses ≡ some ref → ref ≡ id)
number_names_one env {w} fit r small =
    let v = (Reach-WorldInv env fit r).system_inv in
    let n = Reach-IsNumbered env r in
    let size = length-map w.system.responses response_tag in
    (
      λ conn p.
          let (i, e) = pending-PlaceOf w.system conn w.system.request_counter v n p in
          let (same, bound) = place_number w.system conn w.system.request_counter i n small e in
          let counted = n.0.0 in omega arith,
      λ conn conn' id p q.
          let (i, e) = pending-PlaceOf w.system conn id v n p in
          let (j, f) = pending-PlaceOf w.system conn' id v n q in
          let (here, _) = place_number w.system conn id i n small e in
          let (there, _) = place_number w.system conn' id j n small f in cc (e, f, here, there),
      λ conn id ref e.
          sym
            (place_number w.system conn id ref n small
              (response-PlaceOf w.system conn id ref v e)).0,
    )
