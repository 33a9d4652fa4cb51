-- ===== src/Http/Endpoint/Once.antt =====
-- The calls that a user makes on one asynchronous response: only the first answer counts.
use mongoose_cpp.Prelude.{
  ℕ, suc, ◌≤◌, ◌≡◌, refl, sym, ◌∙◌, ap, subst, true, false, List, [], ◌∷◌, some, arith, length,
  get_elem?, get_elem?-lt, get_elem?-set_self, append-nil, length-append, Bool-cases, Option-cases,
  inl, inr, ◌⊎◌,
}
use mongoose_cpp.Mongoose.{Wakeup, gone, refused, posted}
use mongoose_cpp.Http.AsyncResponse.{
  AsyncResponse, stream as stream_response, send as send_response,
}
use mongoose_cpp.Http.AsyncResponse.State.{is_pending}
use mongoose_cpp.Http.AsyncResponse.Laws.{settled_ignores}
use mongoose_cpp.Http.Endpoint.State.{
  System, Env, AsyncAction, header, send, stream, act, user_action, user_actions,
}

-- A response whose state is not `pending`.
abbrev IsSettled : List AsyncResponse → ℕ → Type 0
IsSettled rs ref = (r : AsyncResponse) × (get_elem? rs ref ≡ some r) × (is_pending r.state ≡ false)

-- A call that changes nothing that counts.
abbrev Ignored : System → ℕ → System → Type 0
Ignored s ref t = (t.signals ≡ s.signals) × IsSettled t.responses ref

-- A call that posts at most one wake-up, and after which the response is settled.
abbrev Counted : System → ℕ → System → Type 0
Counted s ref t = (length t.signals ≤ suc (length s.signals)) × IsSettled t.responses ref

settled_act :
    (env : Env) (s : System) (ref : ℕ) (r : AsyncResponse) (a : AsyncAction)
    → get_elem? s.responses ref ≡ some r
    → is_pending r.state ≡ false
    → Ignored s ref (act env s ref r a)
unfolding act
settled_act env s ref r (header w) h p =
    (refl, (_, get_elem?-set_self s.responses ref _ (get_elem?-lt s.responses ref h), p))
settled_act env s ref r (send code body answer) h p =
    rw ((settled_ignores env.header_order r answer p).0 code body) (
      append-nil s.signals,
      (r, get_elem?-set_self s.responses ref r (get_elem?-lt s.responses ref h), p),
    )
settled_act env s ref r (stream code encoding answer) h p =
    rw ((settled_ignores env.header_order r answer p).1 s.streams code encoding) (
      append-nil s.signals,
      (r, get_elem?-set_self s.responses ref r (get_elem?-lt s.responses ref h), p),
    )

pub settled_actions :
    (env : Env) (s : System) (ref : ℕ) (actions : List AsyncAction)
    → IsSettled s.responses ref
    → (user_actions env s ref actions).signals ≡ s.signals
unfolding user_actions
settled_actions env s ref [] settled = refl
settled_actions env s ref (a ∷ rest) (r, h, p) =
    let (same, settled) = settled_act env s ref r a h p in
    ap (λ z. (user_actions env z ref rest).signals) (rw (h, user_action))
    ∙ settled_actions env (act env s ref r a) ref rest settled
    ∙ same

-- A call on a pending response leaves it pending and posts nothing, or settles it and posts at most
-- one wake-up.
pending_act :
    (env : Env) (s : System) (ref : ℕ) (r : AsyncResponse) (a : AsyncAction)
    → get_elem? s.responses ref ≡ some r
    → is_pending r.state ≡ true
    → let t = act env s ref r a in
      ((t.signals ≡ s.signals)
        × ((q : AsyncResponse) × (get_elem? t.responses ref ≡ some q)
            × (is_pending q.state ≡ true)))
      ⊎ Counted s ref t
unfolding act send_response stream_response
pending_act env s ref r (header w) h p =
    inl (refl, (_, get_elem?-set_self s.responses ref _ (get_elem?-lt s.responses ref h), p))
pending_act env s ref r (send code body answer) h p = inr (go answer)
  where
    go : (answer : Wakeup) → Counted s ref (act env s ref r (send code body answer))
    go gone = rw p (
      omega (arith, length-append s.signals []),
      (_, get_elem?-set_self s.responses ref _ (get_elem?-lt s.responses ref h), refl),
    )
    go refused = rw p (
      omega (arith, length-append s.signals []),
      (_, get_elem?-set_self s.responses ref _ (get_elem?-lt s.responses ref h), refl),
    )
    go posted = rw p (
      omega (arith, length-append s.signals ((r.conn, r.id) ∷ [])),
      (_, get_elem?-set_self s.responses ref _ (get_elem?-lt s.responses ref h), refl),
    )
pending_act env s ref r (stream code encoding answer) h p = inr (go answer)
  where
    go : (answer : Wakeup) → Counted s ref (act env s ref r (stream code encoding answer))
    go gone = rw p (
      omega (arith, length-append s.signals []),
      (_, get_elem?-set_self s.responses ref _ (get_elem?-lt s.responses ref h), refl),
    )
    go refused = rw p (
      omega (arith, length-append s.signals []),
      (_, get_elem?-set_self s.responses ref _ (get_elem?-lt s.responses ref h), refl),
    )
    go posted = rw p (
      omega (arith, length-append s.signals ((r.conn, r.id) ∷ [])),
      (_, get_elem?-set_self s.responses ref _ (get_elem?-lt s.responses ref h), refl),
    )

-- Whatever calls a user makes on one response, in any order and number, they post at most one wake-up.
pub one_wakeup :
    (env : Env) (s : System) (ref : ℕ) (actions : List AsyncAction)
    → length (user_actions env s ref actions).signals ≤ suc (length s.signals)
unfolding user_actions
one_wakeup env s ref [] = omega arith
one_wakeup env s ref (a ∷ rest) = elim (Option-cases (get_elem? s.responses ref)) [
  | inl e ↦
      let t = one_wakeup env s ref rest in
      let same : user_action env s ref a ≡ s = rw (e, user_action) in
      subst (λ z. length (user_actions env z ref rest).signals ≤ suc (length s.signals)) (sym same)
        t
  | inr (r, h) ↦
      let moved : user_action env s ref a ≡ act env s ref r a = rw (h, user_action) in
      subst (λ z. length (user_actions env z ref rest).signals ≤ suc (length s.signals)) (sym moved)
        (elim (Bool-cases (is_pending r.state)) [
          | inl p ↦ (elim (pending_act env s ref r a h p) [
            | inl q ↦ omega (arith, one_wakeup env (act env s ref r a) ref rest, ap length q.0)
            | inr q ↦
                omega (arith, q.0, ap length (settled_actions env (act env s ref r a) ref rest q.1))
          ])
          | inr p ↦
              let q = settled_act env s ref r a h p in
              omega (
                arith,
                ap length (settled_actions env (act env s ref r a) ref rest q.1),
                ap length q.0,
              )
        ])
]
