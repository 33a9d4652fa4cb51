-- ===== src/Http/Safety/Inv.antt =====
-- The invariant of the endpoint and its shared objects.
use mongoose_cpp.Prelude.{ℕ, ◌≡◌, List, Option, some, Bytes, All}
use mongoose_cpp.Table.{find, IsUnique}
use mongoose_cpp.Table.Keys.{nat_key}
use mongoose_cpp.Mongoose.{MgCall, Signal}
use mongoose_cpp.Http.AsyncStream.{AsyncStream}
use mongoose_cpp.Http.AsyncResponse.{AsyncResponse}
use mongoose_cpp.Http.Endpoint.State.{System, Listener, Responses, Streams}
use mongoose_cpp.Http.Endpoint.Register.{count_groups}
use mongoose_cpp.Http.Endpoint.Wakeup.Lookup.{find_at}
use mongoose_cpp.Http.Safety.Valid.{ValidStream, ValidResponse, Keeps, ValidStream-Keeps}

-- A listener has a group for each capture that its path can make.
abbrev pub IsCounted : Bytes × Listener → Type 0
IsCounted (path, listener) = listener.groups ≡ count_groups path

-- The maps have different keys, every pending response and stream is a good pointer to an object that
-- was made for that connection under that number, and the listeners count their groups.
pub record Inv (s : System) : Type 0 where
  pub responses_keys : IsUnique nat_key s.pending_responses
  pub streams_keys : IsUnique nat_key s.pending_streams
  pub responses_unique :
      (conn : ℕ) (t : Responses)
      → find nat_key conn s.pending_responses ≡ some t
      → IsUnique nat_key t
  pub streams_unique :
      (conn : ℕ) (t : Streams) → find nat_key conn s.pending_streams ≡ some t → IsUnique nat_key t
  pub responses_valid :
      (conn id ref : ℕ)
      → find_at conn id s.pending_responses ≡ some ref
      → ValidResponse s.responses s.streams ref conn id
  pub streams_valid :
      (conn id : ℕ) (ref : Option ℕ)
      → find_at conn id s.pending_streams ≡ some ref
      → ValidStream s.streams ref conn id
  pub groups_counted : All IsCounted s.listeners

-- Changes of the shared objects that keep the pointers good.
pub Inv-store :
    (s : System) (rs : List AsyncResponse) (xs : List AsyncStream) (calls : List MgCall)
    (signals : List Signal)
    → Inv s
    → Keeps s.streams xs
    → ((ref conn id : ℕ)
        → ValidResponse s.responses s.streams ref conn id
        → ValidResponse rs xs ref conn id)
    → Inv (record s { responses = rs; streams = xs; calls = calls; signals = signals })
Inv-store s rs xs calls signals v keep valid = record {
  responses_keys = v.responses_keys;
  streams_keys = v.streams_keys;
  responses_unique = v.responses_unique;
  streams_unique = v.streams_unique;
  responses_valid = λ conn id ref h. valid ref conn id (v.responses_valid conn id ref h);
  streams_valid = λ conn id ref h.
      ValidStream-Keeps s.streams xs ref conn id keep (v.streams_valid conn id ref h);
  groups_counted = v.groups_counted;
}
