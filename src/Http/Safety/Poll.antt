-- ===== src/Http/Safety/Poll.antt =====
-- The loop of handle_poll.
use mongoose_cpp.Prelude.{
  ℕ, ◌==◌, ==_iff, ◌≡◌, refl, ◌∙◌, ap, sym, subst, List, [], ◌∷◌, ◌++◌, none, some, arith, All,
  Bool-cases, Option-cases, inl, inr,
}
use mongoose_cpp.Table.{find, assign, IsUnique, IsFresh}
use mongoose_cpp.Table.Keys.{nat_key}
use mongoose_cpp.Table.Laws.{assign-IsUnique, find_fresh, find-assign}
use mongoose_cpp.Mongoose.{MgCall, ok}
use mongoose_cpp.Http.AsyncResponse.State.{is_failed}
use mongoose_cpp.Http.Endpoint.State.{System, Responses}
use mongoose_cpp.Http.Endpoint.Wakeup.{internal_server_error}
use mongoose_cpp.Http.Endpoint.Wakeup.Lookup.{find_at, find_in}
use mongoose_cpp.Http.Endpoint.Events.{poll_responses, handle_poll}
use mongoose_cpp.Http.Safety.Maps.{InnerUnique-assign}
use mongoose_cpp.Http.Safety.Inv.{Inv}
use mongoose_cpp.Http.Safety.Serving.{Safe}
use mongoose_cpp.Http.Safety.Pointers.{deref_response_lem, GoodResponse, good_responses}

-- What `handle_poll` keeps of a connection's responses.
abbrev Kept : Responses → Responses → Type 0
Kept t kept =
    IsUnique nat_key kept
    × ((j : ℕ) → IsFresh nat_key j t → IsFresh nat_key j kept)
    × ((id ref : ℕ) → find nat_key id kept ≡ some ref → find nat_key id t ≡ some ref)

Kept-cons :
    (id ref : ℕ) (t kept : Responses)
    → IsUnique nat_key ((id, ref) ∷ t)
    → Kept t kept
    → Kept ((id, ref) ∷ t) ((id, ref) ∷ kept)
unfolding find
Kept-cons id ref t kept u (a, b, c) =
    ((b id u.0, a), λ j f. (f.0, b j f.1), λ i x h. ground (arith, c i x))

Kept-skip :
    (id ref : ℕ) (t kept : Responses)
    → IsUnique nat_key ((id, ref) ∷ t)
    → Kept t kept
    → Kept ((id, ref) ∷ t) kept
Kept-skip id ref t kept u (a, b, c) = (a, λ j f. b j f.1, λ i x h. skips i x (c i x h))
  where
    skips : (i x : ℕ) → find nat_key i t ≡ some x → find nat_key i ((id, ref) ∷ t) ≡ some x
    skips i x e = elim (Bool-cases (id == i)) [
      | inl p ↦
          let gone =
            subst (λ z. find nat_key z t ≡ none) ((==_iff id i).0 p)
              (find_fresh nat_key id t u.0) in
          cc (gone, e)
      | inr p ↦ unfold find in rw p e
    ]

poll_safe :
    (conn : ℕ) (s : System) (t : Responses)
    → IsUnique nat_key t
    → All (GoodResponse s.responses s.streams conn) t
    → (polled : Responses × List MgCall) × (poll_responses conn s t ≡ ok polled) × (Kept t polled.0)
unfolding poll_responses
poll_safe conn s [] u good = (([], []), refl, (tt, λ j f. f, λ id ref h. h))
poll_safe conn s ((id, ref) ∷ t) u ((r, h, c, i, streaming), good) =
    let (polled, e, kept) = poll_safe conn s t u.1 good in
    elim (Bool-cases (is_failed r.state)) [
      | inl p ↦ (
        (polled.0, internal_server_error conn ∷ polled.1),
        rw (deref_response_lem s ref r h) (rw e (rw p)),
        Kept-skip id ref t polled.0 u kept,
      )
      | inr p ↦ (
        ((id, ref) ∷ polled.0, polled.1),
        rw (deref_response_lem s ref r h) (rw e (rw p)),
        Kept-cons id ref t polled.0 u kept,
      )
    ]

poll-Inv :
    (conn : ℕ) (t kept : Responses) (calls : List MgCall) (s : System)
    → find nat_key conn s.pending_responses ≡ some t
    → Kept t kept
    → Inv s
    → Inv (record s {
      endpoint = record s.endpoint {
        pending_responses = assign nat_key conn kept s.pending_responses;
      };
      calls = calls;
    })
poll-Inv conn t kept calls s e (u, f, sub) v = record {
  responses_keys = assign-IsUnique nat_key conn kept s.pending_responses v.responses_keys;
  streams_keys = v.streams_keys;
  responses_unique = InnerUnique-assign conn kept s.pending_responses u v.responses_unique;
  streams_unique = v.streams_unique;
  responses_valid = λ c id ref h. v.responses_valid c id ref (was c id ref h);
  streams_valid = v.streams_valid;
  groups_counted = v.groups_counted;
}
  where
    was :
        (c id ref : ℕ)
        → find_at c id (assign nat_key conn kept s.pending_responses) ≡ some ref
        → find_at c id s.pending_responses ≡ some ref
    was c id ref h = elim (Bool-cases (conn == c)) [
      | inl p ↦
          let here : find nat_key c (assign nat_key conn kept s.pending_responses) ≡ some kept =
            ground (arith, find-assign nat_key conn c kept s.pending_responses) in
          let there : find nat_key c s.pending_responses ≡ some t =
            subst (λ z. find nat_key z s.pending_responses ≡ some t) ((==_iff conn c).0 p) e in
          ap (find_in id) there ∙ sub id ref (sym (ap (find_in id) here) ∙ h)
      | inr p ↦
          let there : find nat_key c (assign nat_key conn kept s.pending_responses)
              ≡ find nat_key c s.pending_responses =
            ground (arith, find-assign nat_key conn c kept s.pending_responses) in
          sym (ap (find_in id) there) ∙ h
    ]

-- A poll event is served, and keeps the invariant.
pub handle_poll-Inv : (conn : ℕ) (s : System) → Inv s → Safe (handle_poll conn s)
unfolding handle_poll
handle_poll-Inv conn s v = elim (Option-cases (find nat_key conn s.pending_responses)) [
  | inl e ↦ (s, rw (e, handle_poll), v)
  | inr (t, e) ↦
      let (polled, q, kept) =
        poll_safe conn s t (v.responses_unique conn t e) (good_responses conn t s e v) in
      (_, rw (e, handle_poll) (rw q), poll-Inv conn t polled.0 (s.calls ++ polled.1) s e kept v)
]
