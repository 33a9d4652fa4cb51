-- ===== src/Http/Safety/PollReplies.antt =====
-- What handle_poll does for the responses that failed, whatever made them fail.
use mongoose_cpp.Prelude.{
  ℕ, suc, ◌==◌, ==_iff, ◌≡◌, refl, ◌∙◌, ap, subst, Bool, false, List, [], ◌∷◌, ◌++◌, Option, none,
  some, All, get_elem?, replicate, Bool-cases, inl, inr, if◌then◌else◌,
}
use mongoose_cpp.Table.{find, assign, IsUnique}
use mongoose_cpp.Table.Keys.{nat_key}
use mongoose_cpp.Table.Laws.{find-assign, find_fresh}
use mongoose_cpp.Mongoose.{ok}
use mongoose_cpp.Http.AsyncResponse.{AsyncResponse}
use mongoose_cpp.Http.AsyncResponse.State.{is_failed}
use mongoose_cpp.Http.Endpoint.State.{System, Responses}
use mongoose_cpp.Http.Endpoint.Wakeup.{internal_server_error}
use mongoose_cpp.Http.Endpoint.Wakeup.Lookup.{find_at}
use mongoose_cpp.Http.Endpoint.Events.{poll_responses, handle_poll}
use mongoose_cpp.Http.Safety.Inv.{Inv}
use mongoose_cpp.Http.Safety.Pointers.{deref_response_lem, GoodResponse, good_responses}

-- Whether the response at a place has failed.
abbrev pub failing : Option AsyncResponse → Bool
failing none = false
failing (some r) = is_failed r.state

abbrev pub failed_at : List AsyncResponse → ℕ → Bool
failed_at rs ref = failing (get_elem? rs ref)

-- Of a connection's responses, those that have not failed, and how many have.
abbrev pub kept : List AsyncResponse → Responses → Responses
kept rs [] = []
kept rs ((id, ref) ∷ t) = if failed_at rs ref then kept rs t else (id, ref) ∷ kept rs t

abbrev pub failures : List AsyncResponse → Responses → ℕ
failures rs [] = 0
failures rs ((id, ref) ∷ t) =
    let rest = failures rs t in if failed_at rs ref then suc rest else rest

-- A pending entry, unless its response has failed.
abbrev survives : List AsyncResponse → Option ℕ → Option ℕ
survives rs none = none
survives rs (some ref) = if failed_at rs ref then none else some ref

poll_responses_lem :
    (conn : ℕ) (s : System) (t : Responses)
    → All (GoodResponse s.responses s.streams conn) t
    → poll_responses conn s t
      ≡ ok (kept s.responses t, replicate (failures s.responses t) (internal_server_error conn))
unfolding poll_responses
poll_responses_lem conn s [] good = refl
poll_responses_lem conn s ((id, ref) ∷ t) ((r, h, c, i, streaming), good) =
    let rest = poll_responses_lem conn s t good in
    elim (Bool-cases (is_failed r.state)) [
      | inl p ↦ rw (deref_response_lem s ref r h) (rw rest (rw h (rw p refl)))
      | inr p ↦ rw (deref_response_lem s ref r h) (rw rest (rw h (rw p refl)))
    ]

find-kept :
    (rs : List AsyncResponse) (id : ℕ) (t : Responses)
    → IsUnique nat_key t
    → find nat_key id (kept rs t) ≡ survives rs (find nat_key id t)
unfolding find
find-kept rs id [] u = refl
find-kept rs id ((j, ref) ∷ t) u = elim (Bool-cases (failed_at rs ref)) [
  | inl p ↦ elim (Bool-cases (j == id)) [
    | inl q ↦
        rw (p, q)
          (rw p (
            find-kept rs id t u.1
            ∙ ap (survives rs) (
                subst (λ z. find nat_key z t ≡ none) ((==_iff j id).0 q)
                  (find_fresh nat_key j t u.0))))
    | inr q ↦ rw (p, q) (find-kept rs id t u.1)
  ]
  | inr p ↦ elim (Bool-cases (j == id)) [
    | inl q ↦ rw (p, q) (rw p refl)
    | inr q ↦ rw (p, q) (find-kept rs id t u.1)
  ]
]

-- Where the invariant of the endpoint holds, a poll event of a connection that has pending responses
-- makes one error reply for each of them that has failed, and no other call; these are not pending any
-- more, and all others still are, on this connection and on any other.
pub poll_answers_failed :
    (conn : ℕ) (s : System) (t : Responses)
    → Inv s
    → find nat_key conn s.pending_responses ≡ some t
    → (s' : System) × (handle_poll conn s ≡ ok s')
      × (s'.calls ≡ s.calls ++ replicate (failures s.responses t) (internal_server_error conn))
      × ((c id : ℕ)
          → find_at c id s'.pending_responses ≡ (
              if conn == c
              then survives s.responses (find_at c id s.pending_responses)
              else find_at c id s.pending_responses))
unfolding handle_poll
poll_answers_failed conn s t v e = (
  record s {
    endpoint = record s.endpoint {
      pending_responses = assign nat_key conn (kept s.responses t) s.pending_responses;
    };
    calls = s.calls ++ replicate (failures s.responses t) (internal_server_error conn);
  },
  rw (e, handle_poll) (rw (poll_responses_lem conn s t (good_responses conn t s e v)) refl),
  refl,
  at,
)
  where
    at :
        (c id : ℕ)
        → find_at c id (assign nat_key conn (kept s.responses t) s.pending_responses) ≡ (
            if conn == c
            then survives s.responses (find_at c id s.pending_responses)
            else find_at c id s.pending_responses)
    at c id = elim (Bool-cases (conn == c)) [
      | inl p ↦
          let there : find nat_key c s.pending_responses ≡ some t =
            subst (λ z. find nat_key z s.pending_responses ≡ some t) ((==_iff conn c).0 p) e in
          rw (find-assign nat_key conn c (kept s.responses t) s.pending_responses)
            (rw p (rw there (find-kept s.responses id t (v.responses_unique conn t e))))
      | inr p ↦ rw (find-assign nat_key conn c (kept s.responses t) s.pending_responses) (rw p refl)
    ]
