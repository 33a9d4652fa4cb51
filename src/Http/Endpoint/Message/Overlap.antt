-- ===== src/Http/Endpoint/Message/Overlap.antt =====
-- The order in which the loops of handle_http_message visit their maps, and where it shows.
use mongoose_cpp.Prelude.{
  ℕ, ◌+◌, ◌≤◌, ◌≡◌, refl, sym, ap, ◌∙◌, subst, List, [], ◌∷◌, Option, none, some, Bytes,
  Option-cases, inl, inr, get_elem?, All, ◌++◌, append-nil, ◌↔◌,
}
use mongoose_cpp.Table.Order.{Order, first_at, first_at_lem, first_hit, hits, hit, first_hit-visit}
use mongoose_cpp.Http.Endpoint.State.{Env, Listener, Asset}
use mongoose_cpp.Http.Endpoint.Message.{match_listener, match_asset}

-- The number of entries whose path matches.
abbrev pub matching {ℓ} : {A : Type ℓ} → Env → Bytes → List (Bytes × A) → ℕ
matching env uri [] = 0
matching env uri ((path, target) ∷ rest) = hit (env.mg_match uri path) + matching env uri rest

-- What a search makes of one entry.
abbrev taken {ℓ κ} :
    {A : Type ℓ} {B : Type κ} → A → (A → List Bytes → B) → Option (List Bytes) → Option B
taken target f none = none
taken target f (some captures) = some (f target captures)

abbrev of_entry {ℓ κ} :
    {A : Type ℓ} {B : Type κ} → (Bytes → A → List Bytes → B) → Env → Bytes → Bytes × A → Option B
of_entry f env uri (path, target) = taken target (f path) (env.mg_match uri path)

module _ {ℓ κ} {A : Type ℓ} {B : Type κ} (f : Bytes → A → List Bytes → B) (env : Env)
    (uri : Bytes) where
  hits-matching :
      (entries : List (Bytes × A)) → hits (of_entry f env uri) entries ≡ matching env uri entries
  hits-matching [] = refl
  hits-matching ((path, target) ∷ rest) = elim (Option-cases (env.mg_match uri path)) [
    | inl e ↦ rw e (ap (λ n. 0 + n) (hits-matching rest))
    | inr (c, e) ↦ rw e (ap (λ n. 1 + n) (hits-matching rest))
  ]

  first_hit_any_order :
      (o : Order (Bytes × A)) (entries : List (Bytes × A))
      → matching env uri entries ≤ 1
      → first_hit (of_entry f env uri) (o.visit entries) ≡ first_hit (of_entry f env uri) entries
  first_hit_any_order o entries h =
      first_hit-visit (of_entry f env uri) o entries
        (subst (λ n. n ≤ 1) (sym (hits-matching entries)) h)

abbrev with_captures : Bytes → Listener → List Bytes → Listener × List Bytes
with_captures path listener captures = (listener, captures)

abbrev with_path : Bytes → Asset → List Bytes → Bytes × Asset
with_path path asset captures = (path, asset)

match_listener-first_hit :
    (env : Env) (uri : Bytes) (ls : List (Bytes × Listener))
    → match_listener env uri ls ≡ first_hit (of_entry with_captures env uri) ls
unfolding match_listener
match_listener-first_hit env uri [] = refl
match_listener-first_hit env uri ((path, l) ∷ ls) = elim (Option-cases (env.mg_match uri path)) [
  | inl e ↦ rw (e, match_listener) (match_listener-first_hit env uri ls)
  | inr (c, e) ↦ rw (e, match_listener) refl
]

match_asset-first_hit :
    (env : Env) (uri : Bytes) (assets : List (Bytes × Asset))
    → match_asset env uri assets ≡ first_hit (of_entry with_path env uri) assets
unfolding match_asset
match_asset-first_hit env uri [] = refl
match_asset-first_hit env uri ((path, a) ∷ assets) = elim (Option-cases (env.mg_match uri path)) [
  | inl e ↦ rw (e, match_asset) (match_asset-first_hit env uri assets)
  | inr (c, e) ↦ rw (e, match_asset) refl
]

-- A request whose path matches that of one listener at most, and of one asset at most, goes to the same
-- listener with the same captures, or to the same asset, in whatever order the maps are visited.
pub order_irrelevant :
    (env : Env) (uri : Bytes) (o : Order (Bytes × Listener)) (p : Order (Bytes × Asset))
    (ls : List (Bytes × Listener)) (assets : List (Bytes × Asset))
    → matching env uri ls ≤ 1
    → matching env uri assets ≤ 1
    → (match_listener env uri (o.visit ls) ≡ match_listener env uri ls)
      × (match_asset env uri (p.visit assets) ≡ match_asset env uri assets)
order_irrelevant env uri o p ls assets hl ha = (
  match_listener-first_hit env uri (o.visit ls)
      ∙ first_hit_any_order with_captures env uri o ls hl
      ∙ sym (match_listener-first_hit env uri ls),
  match_asset-first_hit env uri (p.visit assets)
      ∙ first_hit_any_order with_path env uri p assets ha
      ∙ sym (match_asset-first_hit env uri assets),
)

-- Where the paths of several listeners match, any of them may get the request: for each there is an
-- order of visiting the map in which the request goes to it, with the captures of its own path.
pub any_match_may_win :
    (env : Env) (uri path : Bytes) (l : Listener) (captures : List Bytes) (i : ℕ)
    (ls : List (Bytes × Listener))
    → get_elem? ls i ≡ some (path, l)
    → env.mg_match uri path ≡ some captures
    → (o : Order (Bytes × Listener)) × (match_listener env uri (o.visit ls) ≡ some (l, captures))
unfolding match_listener
any_match_may_win env uri path l captures i ls e m =
    let (rest, q) = first_at_lem i ls e in
    (first_at i, ap (match_listener env uri) q ∙ rw (m, match_listener))

-- The path of the entry does not match.
abbrev pub NoMatch : Env → Bytes → Bytes × Listener → Type 0
NoMatch env uri (path, l) = env.mg_match uri path ≡ none

-- The result is that of the first entry whose path matches, or no entry's path matches.
abbrev pub FirstMatch :
    Env → Bytes → List (Bytes × Listener) → Option (Listener × List Bytes) → Type 0
FirstMatch env uri ls none = All (NoMatch env uri) ls
FirstMatch env uri ls (some (l, captures)) =
    (before : List (Bytes × Listener)) × (path : Bytes) × (after : List (Bytes × Listener)) × (ls
      ≡ before ++ (path, l) ∷ after)
    × All (NoMatch env uri) before
    × (env.mg_match uri path ≡ some captures)

FirstMatch-cons :
    (env : Env) (uri : Bytes) (e : Bytes × Listener) (ls : List (Bytes × Listener))
    (result : Option (Listener × List Bytes))
    → NoMatch env uri e
    → FirstMatch env uri ls result
    → FirstMatch env uri (e ∷ ls) result
FirstMatch-cons env uri e ls none m h = (m, h)
FirstMatch-cons env uri e ls (some (l, captures)) m (before, path, after, q, misses, hit) =
    (e ∷ before, path, after, ap (◌∷◌ e) q, (m, misses), hit)

match_listener-FirstMatch :
    (env : Env) (uri : Bytes) (ls : List (Bytes × Listener))
    → FirstMatch env uri ls (match_listener env uri ls)
unfolding match_listener
match_listener-FirstMatch env uri [] = tt
match_listener-FirstMatch env uri ((path, l) ∷ ls) = elim (Option-cases (env.mg_match uri path)) [
  | inl e ↦
      let skipped : match_listener env uri ((path, l) ∷ ls) ≡ match_listener env uri ls =
        rw (e, match_listener) in
      subst (FirstMatch env uri ((path, l) ∷ ls)) (sym skipped) (
        FirstMatch-cons env uri (path, l) ls (match_listener env uri ls) e
          (match_listener-FirstMatch env uri ls))
  | inr (c, e) ↦
      let taken_here : match_listener env uri ((path, l) ∷ ls) ≡ some (l, c) =
        rw (e, match_listener) in
      subst (FirstMatch env uri ((path, l) ∷ ls)) (sym taken_here) ([], path, ls, refl, tt, e)
]

match_listener-skips :
    (env : Env) (uri : Bytes) (before ls : List (Bytes × Listener))
    → All (NoMatch env uri) before
    → match_listener env uri (before ++ ls) ≡ match_listener env uri ls
unfolding match_listener
match_listener-skips env uri [] ls h = refl
match_listener-skips env uri ((path, l) ∷ before) ls h =
    rw (h.0, match_listener) (match_listener-skips env uri before ls h.1)

FirstMatch-match_listener :
    (env : Env) (uri : Bytes) (ls : List (Bytes × Listener))
    (result : Option (Listener × List Bytes))
    → FirstMatch env uri ls result
    → match_listener env uri ls ≡ result
unfolding match_listener
FirstMatch-match_listener env uri ls none h =
    ap (match_listener env uri) (sym (append-nil ls)) ∙ match_listener-skips env uri ls [] h
FirstMatch-match_listener env uri ls (some (l, captures)) (before, path, after, q, misses, hit) =
    ap (match_listener env uri) q
    ∙ match_listener-skips env uri before ((path, l) ∷ after) misses
    ∙ rw (hit, match_listener)

-- In whatever order the map of listeners is visited, the request goes to a listener, with captures,
-- exactly when that listener's path is the first in this order that matches, and these are its
-- captures; and to none exactly when no path matches.
pub FirstMatch-wins :
    (env : Env) (uri : Bytes) (o : Order (Bytes × Listener)) (ls : List (Bytes × Listener))
    (result : Option (Listener × List Bytes))
    → (match_listener env uri (o.visit ls) ≡ result) ↔ FirstMatch env uri (o.visit ls) result
FirstMatch-wins env uri o ls result = (
  λ e. subst (FirstMatch env uri (o.visit ls)) e (match_listener-FirstMatch env uri (o.visit ls)),
  FirstMatch-match_listener env uri (o.visit ls) result,
)
