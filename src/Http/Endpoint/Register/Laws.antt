-- ===== src/Http/Endpoint/Register/Laws.antt =====
-- What registrations leave behind: paths with their groups, and assets that are registered twice.
use mongoose_cpp.Prelude.{
  ℕ, suc, ◌+◌, ◌≡◌, refl, ◌∙◌, ap, true, List, [], ◌∷◌, ◌++◌, Bytes, arith, if◌then◌else◌,
  Bool-cases, inl, inr,
}
use mongoose_cpp.Table.{assign}
use mongoose_cpp.Table.Keys.{text_key, text_refl}
use mongoose_cpp.Table.Laws.{find-assign}
use mongoose_cpp.Table.Order.{Order}
use mongoose_cpp.Http.Headers.{Entry, Headers, format}
use mongoose_cpp.Http.Endpoint.State.{Endpoint, Asset}
use mongoose_cpp.Http.Endpoint.Register.{
  count_groups, count_groups_loop, is_capture, on_asset, on_assets_pair, resource,
}

-- What an assignment under a path leaves at that path.
found_asset :
    (e : Endpoint) (path : Bytes) (a : Asset) (m : List (Bytes × Asset))
    → e.assets ≡ assign text_key path a m
    → resource e path ≡ a
unfolding resource
found_asset e path a m h =
    rw (h, resource) (rw (find-assign text_key path path a m) (rw (text_refl path)))

on_asset_lem :
    (o : Order Entry) (e : Endpoint) (path file mime_type : Bytes) (h : Headers)
    → resource (on_asset o e path file mime_type h) path
      ≡ record (resource e path) { path = file; mime_type = mime_type; headers = format o h true 0 }
unfolding on_asset
on_asset_lem o e path file mime_type h =
    found_asset (on_asset o e path file mime_type h) path _ e.assets refl

on_assets_pair_lem :
    (e : Endpoint) (path dir : Bytes)
    → resource (on_assets_pair e path dir) path
      ≡ record (resource e path) { is_dir = true; path = dir }
unfolding on_assets_pair
on_assets_pair_lem e path dir = found_asset (on_assets_pair e path dir) path _ e.assets refl

-- A path that `on_assets` registered as a directory, and then `on_asset` with a file, keeps the file
-- and is still a directory.
pub file_after_directory :
    (o : Order Entry) (e : Endpoint) (path dir file mime_type : Bytes) (h : Headers)
    → let asset = resource (on_asset o (on_assets_pair e path dir) path file mime_type h) path in
      (asset.path ≡ file) × (asset.mime_type ≡ mime_type) × (asset.is_dir ≡ true)
file_after_directory o e path dir file mime_type h =
    let last = on_asset_lem o (on_assets_pair e path dir) path file mime_type h in
    (
      ap (λ a. a.path) last,
      ap (λ a. a.mime_type) last,
      ap (λ a. a.is_dir) last ∙ ap (λ a. a.is_dir) (on_assets_pair_lem e path dir),
    )

count_groups_loop-append :
    (n : ℕ) (a b : Bytes)
    → count_groups_loop n (a ++ b) ≡ count_groups_loop (count_groups_loop n a) b
unfolding count_groups_loop
count_groups_loop-append n [] b = refl
count_groups_loop-append n (c ∷ a) b =
    count_groups_loop-append (if is_capture c then suc n else n) a b

count_groups_loop-start : (n : ℕ) (a : Bytes) → count_groups_loop n a ≡ n + count_groups a
unfolding count_groups_loop count_groups
count_groups_loop-start n [] = omega arith
count_groups_loop-start n (c ∷ a) = elim (Bool-cases (is_capture c)) [
  | inl p ↦ rw p (omega (arith, count_groups_loop-start (suc n) a, count_groups_loop-start 1 a))
  | inr p ↦ rw p (count_groups_loop-start n a)
]

-- The number of groups of a path is the sum over its parts: each wildcard counts, wherever it stands.
count_groups-append : (a b : Bytes) → count_groups (a ++ b) ≡ count_groups a + count_groups b
unfolding count_groups
count_groups-append a b =
    count_groups_loop-append 0 a b ∙ count_groups_loop-start (count_groups a) b
