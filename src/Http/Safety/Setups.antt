-- ===== src/Http/Safety/Setups.antt =====
-- The calls that set an endpoint up keep its invariant.
use mongoose_cpp.Prelude.{
  ◌≡◌, refl, ◌∙◌, ap, sym, List, [], ◌∷◌, Bytes, All, Bool-cases, inl, inr, bytes_eq, bytes_eq_iff,
}
use mongoose_cpp.Table.{Table, assign}
use mongoose_cpp.Table.Keys.{text_key}
use mongoose_cpp.Table.Order.{Order}
use mongoose_cpp.Http.Headers.{Entry, Headers}
use mongoose_cpp.Http.Request.{Request}
use mongoose_cpp.Http.Response.{Action}
use mongoose_cpp.Http.Endpoint.State.{System, Endpoint, Listener, AsyncAction}
use mongoose_cpp.Http.Endpoint.Register.{
  count_groups, on_request, on_async_request, on_fallback, on_async_fallback, on_asset, on_assets,
  on_assets_pair,
}
use mongoose_cpp.Http.Endpoint.Tls.{UseTls, use_tls_call}
use mongoose_cpp.Http.Safety.Inv.{Inv, IsCounted}

-- A call that sets the endpoint up.
pub data Setup : Type 0 where
  requests : Bytes → (Request → List Action) → Setup
  async_requests : Bytes → (Request → List AsyncAction) → Setup
  fallback : (Request → List Action) → Setup
  async_fallback : (Request → List AsyncAction) → Setup
  asset : Bytes → Bytes → Bytes → Headers → Setup
  assets : List (Bytes × Bytes) → Setup
  tls : UseTls → Setup

unfoldable pub apply_setup : Order Entry → Endpoint → Setup → Endpoint
apply_setup o e (requests path callback) = on_request e path callback
apply_setup o e (async_requests path callback) = on_async_request e path callback
apply_setup o e (fallback callback) = on_fallback e callback
apply_setup o e (async_fallback callback) = on_async_fallback e callback
apply_setup o e (asset path file mime_type headers) = on_asset o e path file mime_type headers
apply_setup o e (assets pairs) = on_assets e pairs
apply_setup o e (tls call) = use_tls_call e call

IsCounted-assign :
    (path : Bytes) (l : Listener) (m : Table Bytes Listener)
    → l.groups ≡ count_groups path
    → All IsCounted m
    → All IsCounted (assign text_key path l m)
unfolding assign
IsCounted-assign path l [] e h = (e, tt)
IsCounted-assign path l ((j, k) ∷ m) e h = elim (Bool-cases (bytes_eq j path)) [
  | inl p ↦ rw p (e ∙ ap count_groups (sym ((bytes_eq_iff j path).0 p)), h.1)
  | inr p ↦ rw p (h.0, IsCounted-assign path l m e h.1)
]

-- What a call that sets the endpoint up leaves alone, and what it keeps.
abbrev KeepsPending : Endpoint → Endpoint → Type 0
KeepsPending e e' =
    (e'.pending_responses ≡ e.pending_responses)
    × (e'.pending_streams ≡ e.pending_streams)
    × (All IsCounted e.listeners → All IsCounted e'.listeners)

assets_keep : (e : Endpoint) (pairs : List (Bytes × Bytes)) → KeepsPending e (on_assets e pairs)
unfolding on_assets
assets_keep e [] = (refl, refl, λ h. h)
assets_keep e ((path, dir) ∷ pairs) = assets_keep (on_assets_pair e path dir) pairs

use_keeps : (e : Endpoint) (call : UseTls) → KeepsPending e (use_tls_call e call)
unfolding use_tls_call
use_keeps e (UseTls.tls cert key) = (refl, refl, λ h. h)
use_keeps e (UseTls.mtls ca cert key) = (refl, refl, λ h. h)
use_keeps e (UseTls.tls_view cert key) = (refl, refl, λ h. h)
use_keeps e (UseTls.mtls_view ca cert key) = (refl, refl, λ h. h)

pub setup_keeps : (o : Order Entry) (e : Endpoint) (c : Setup) → KeepsPending e (apply_setup o e c)
unfolding apply_setup on_request on_async_request on_fallback on_async_fallback on_asset
setup_keeps o e (requests path callback) = (refl, refl, IsCounted-assign path _ e.listeners refl)
setup_keeps o e (async_requests path callback) =
    (refl, refl, IsCounted-assign path _ e.listeners refl)
setup_keeps o e (fallback callback) = (refl, refl, λ h. h)
setup_keeps o e (async_fallback callback) = (refl, refl, λ h. h)
setup_keeps o e (asset path file mime_type headers) = (refl, refl, λ h. h)
setup_keeps o e (assets pairs) = assets_keep e pairs
setup_keeps o e (tls call) = use_keeps e call

pub setup-Inv :
    (s : System) (e : Endpoint)
    → KeepsPending s.endpoint e
    → Inv s
    → Inv (record s { endpoint = e })
setup-Inv s e (pr, ps, counted) v = record {
  responses_keys = rw pr v.responses_keys;
  streams_keys = rw ps v.streams_keys;
  responses_unique = λ conn t h. v.responses_unique conn t (rw pr at h);
  streams_unique = λ conn t h. v.streams_unique conn t (rw ps at h);
  responses_valid = λ conn id ref h. v.responses_valid conn id ref (rw pr at h);
  streams_valid = λ conn id ref h. v.streams_valid conn id ref (rw ps at h);
  groups_counted = counted v.groups_counted;
}
