-- ===== src/Http/Endpoint/Message/Routing.antt =====
-- Where a request goes, and what its handler finds in the vector of captures.
use mongoose_cpp.Prelude.{
  ℕ, zero, suc, ◌+◌, ◌<◌, ◌≤◌, ◌≡◌, refl, ap, true, false, Bool, List, [], ◌∷◌, ◌++◌, none, some,
  Bytes, arith, length, get_elem?, All, Option-cases, Bool-cases, ltb, lt→ltb, leb, if◌then◌else◌,
  inl, inr,
}
use mongoose_cpp.Table.Order.{All-visit}
use mongoose_cpp.Mongoose.{ok}
use mongoose_cpp.Http.Connection.{Connection, RemoteContext, context}
use mongoose_cpp.Http.Request
use mongoose_cpp.Http.Request.{Request, Message, get_param, get_remote_ip}
use mongoose_cpp.Http.Endpoint.State.{System, Env, Listener, Asset, emit}
use mongoose_cpp.Http.Endpoint.Wakeup.{not_found_reply}
use mongoose_cpp.Http.Endpoint.Message.{
  match_listener, match_asset, fill, handle_http_message, serve_matched, serve_unlistened,
  serve_fallback, serve_listener, context_of, invoke,
}

-- The path does not match.
abbrev pub matches : Env → Bytes → Bytes → Bool
matches env uri path = elim (env.mg_match uri path) [ none ↦ false | some captures ↦ true ]

abbrev pub Misses {ℓ} : {A : Type ℓ} → Env → Bytes → Bytes × A → Type 0
Misses env uri (path, target) = matches env uri path ≡ false

no_listener :
    (env : Env) (uri : Bytes) (ls : List (Bytes × Listener))
    → All (Misses env uri) ls
    → match_listener env uri ls ≡ none
unfolding match_listener
no_listener env uri [] h = refl
no_listener env uri ((path, l) ∷ ls) h = elim (Option-cases (env.mg_match uri path)) [
  | inl e ↦ rw (e, match_listener) (no_listener env uri ls h.1)
  | inr (c, e) ↦ ground (arith, h.0, e)
]

no_asset :
    (env : Env) (uri : Bytes) (assets : List (Bytes × Asset))
    → All (Misses env uri) assets
    → match_asset env uri assets ≡ none
unfolding match_asset
no_asset env uri [] h = refl
no_asset env uri ((path, a) ∷ assets) h = elim (Option-cases (env.mg_match uri path)) [
  | inl e ↦ rw (e, match_asset) (no_asset env uri assets h.1)
  | inr (c, e) ↦ ground (arith, h.0, e)
]

-- Without a fallback, a request whose path matches that of no listener and no asset, in whatever order
-- the maps are visited, gets one reply, that it was not found, and changes nothing else.
pub unrouted_not_found :
    (env : Env) (conn : Connection) (msg : Message) (s : System)
    → All (Misses env msg.uri) s.listeners
    → All (Misses env msg.uri) s.assets
    → s.fallback ≡ none
    → handle_http_message env conn msg s
      ≡ ok (conn, record s { calls = s.calls ++ not_found_reply conn.id ∷ [] })
unfolding handle_http_message serve_unlistened emit
unrouted_not_found env conn msg s hl ha hf =
    rw
      (
        no_listener env msg.uri _
            (All-visit (Misses env msg.uri) env.listener_order s.listeners hl),
        serve_matched,
      )
      (rw
        (
          no_asset env msg.uri _ (All-visit (Misses env msg.uri) env.asset_order s.assets ha),
          serve_unlistened,
        )
        (rw (hf, serve_fallback)))

length-fill : (n : ℕ) (captures : List Bytes) → length (fill n captures) ≡ n
length-fill zero captures = refl
length-fill (suc n) [] = ap suc (length-fill n [])
length-fill (suc n) (c ∷ captures) = ap suc (length-fill n captures)

get_elem?-fill_blank : (n i : ℕ) → i < n → get_elem? (fill n []) i ≡ some []
get_elem?-fill_blank zero i h = elim h [ ]
get_elem?-fill_blank (suc n) zero h = refl
get_elem?-fill_blank (suc n) (suc i) h = get_elem?-fill_blank n i (omega arith)

fill_cases :
    (n i : ℕ) (captures : List Bytes)
    → length captures ≤ n
    → (i < length captures → get_elem? (fill n captures) i ≡ get_elem? captures i)
      × (length captures ≤ i → i < n → get_elem? (fill n captures) i ≡ some [])
      × (n ≤ i → get_elem? (fill n captures) i ≡ none)
fill_cases zero i captures h = (λ p. absurd (omega arith), λ p q. elim q [ ], λ p. refl)
fill_cases (suc n) zero [] h = (λ p. elim p [ ], λ p q. refl, λ p. elim p [ ])
fill_cases (suc n) (suc i) [] h =
    let (a, b, c) = fill_cases n i [] (omega arith) in
    (λ p. elim p [ ], λ p q. b (omega arith) (omega arith), λ p. c (omega arith))
fill_cases (suc n) zero (x ∷ captures) h = (λ p. refl, λ p q. elim p [ ], λ p. elim p [ ])
fill_cases (suc n) (suc i) (x ∷ captures) h =
    let (a, b, c) = fill_cases n i captures (omega arith) in
    (λ p. a (omega arith), λ p q. b (omega arith) (omega arith), λ p. c (omega arith))

get_param-fill :
    (msg : Message) (c : RemoteContext) (groups i : ℕ) (captures : List Bytes)
    → length captures ≤ groups
    → get_param (Request.new msg c (fill (groups + 1) captures)) i ≡ (
        if ltb i (length captures)
        then get_elem? captures i
        else if leb i groups
        then some []
        else none)
unfolding get_param Request.new
get_param-fill msg c groups i captures h =
    let (a, b, d) = fill_cases (groups + 1) i captures (omega arith) in
    elim (Bool-cases (ltb i (length captures))) [
      | inl p ↦ rw p (a (ground arith))
      | inr p ↦ elim (Bool-cases (leb i groups)) [
        | inl q ↦ rw p (rw q (b (ground arith) (ground arith)))
        | inr q ↦ rw p (rw q (d (ground arith)))
      ]
    ]

-- A request that a listener takes, on a connection with its context, and whose captures fit the groups
-- of the listener, reaches the listener's handler: the handler gets a request with the message and the
-- address of the connection, whose `get_param` returns each capture at its index, then an empty text at
-- every index up to and including the number of groups, and only behind that nothing.
pub get_param_groups :
    (env : Env) (conn : Connection) (msg : Message) (l : Listener) (captures : List Bytes)
    (c : RemoteContext) (s : System)
    → match_listener env msg.uri (env.listener_order.visit s.listeners) ≡ some (l, captures)
    → length captures ≤ l.groups
    → conn.fn_data ≡ context c
    → (request : Request) × (handle_http_message env conn msg s
        ≡ invoke env conn l.callback request s)
      × (request.msg ≡ msg)
      × (get_remote_ip request ≡ c.ip)
      × ((i : ℕ)
          → get_param request i ≡ (
              if ltb i (length captures)
              then get_elem? captures i
              else if leb i l.groups
              then some []
              else none))
unfolding handle_http_message serve_listener context_of Request.new get_remote_ip
get_param_groups env conn msg l captures c s hm fits held = (
  Request.new msg c (fill (l.groups + 1) captures),
  rw (hm, serve_matched)
      (rw (lt→ltb (length captures) (l.groups + 1) (omega arith)) (rw (held, context_of) refl)),
  refl,
  refl,
  λ i. get_param-fill msg c l.groups i captures fits,
)
