-- ===== src/Http/Safety/Pointers.antt =====
-- Following the pointers that the invariant declares good.
use mongoose_cpp.Prelude.{ℕ, ◌≡◌, ◌∙◌, ap, List, Option, some, get_elem?, All}
use mongoose_cpp.Table.{find}
use mongoose_cpp.Table.Keys.{nat_key}
use mongoose_cpp.Mongoose.{ok}
use mongoose_cpp.Http.AsyncResponse.{AsyncResponse}
use mongoose_cpp.Http.AsyncStream.{AsyncStream}
use mongoose_cpp.Http.Endpoint.State.{System, Responses, Streams, deref_response, deref_stream}
use mongoose_cpp.Http.Endpoint.Wakeup.Lookup.{find_in}
use mongoose_cpp.Http.Safety.Valid.{ValidStream, ValidResponse}
use mongoose_cpp.Http.Safety.Maps.{All-of_find}
use mongoose_cpp.Http.Safety.Inv.{Inv}

pub deref_response_lem :
    (s : System) (ref : ℕ) (r : AsyncResponse)
    → get_elem? s.responses ref ≡ some r
    → deref_response s ref ≡ ok r
unfolding deref_response
deref_response_lem s ref r h = rw (h, deref_response)

pub deref_stream_lem :
    (s : System) (ref : Option ℕ) (k : ℕ) (x : AsyncStream)
    → ref ≡ some k
    → get_elem? s.streams k ≡ some x
    → deref_stream s ref ≡ ok x
unfolding deref_stream
deref_stream_lem s ref k x e h = rw e (rw (h, deref_stream))

-- An entry of one connection's responses, or of its streams, is a good pointer.
abbrev pub GoodResponse : List AsyncResponse → List AsyncStream → ℕ → ℕ × ℕ → Type 0
GoodResponse rs xs conn (id, ref) = ValidResponse rs xs ref conn id

abbrev pub GoodStream : List AsyncStream → ℕ → ℕ × Option ℕ → Type 0
GoodStream xs conn (id, ref) = ValidStream xs ref conn id

pub good_responses :
    (conn : ℕ) (t : Responses) (s : System)
    → find nat_key conn s.pending_responses ≡ some t
    → Inv s
    → All (GoodResponse s.responses s.streams conn) t
good_responses conn t s e v =
    All-of_find (GoodResponse s.responses s.streams conn) t (v.responses_unique conn t e)
      (λ id ref h. v.responses_valid conn id ref (ap (find_in id) e ∙ h))

pub good_streams :
    (conn : ℕ) (t : Streams) (s : System)
    → find nat_key conn s.pending_streams ≡ some t
    → Inv s
    → All (GoodStream s.streams conn) t
good_streams conn t s e v =
    All-of_find (GoodStream s.streams conn) t (v.streams_unique conn t e)
      (λ id ref h. v.streams_valid conn id ref (ap (find_in id) e ∙ h))
