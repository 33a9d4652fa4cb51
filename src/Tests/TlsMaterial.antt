-- ===== src/Tests/TlsMaterial.antt =====
-- TLS material that is copied, and material that is not.
use mongoose_cpp.Prelude.{◌≡◌, refl, [], ◌∷◌, ◌++◌, codes, inl, inr, List, ℕ, All}
use mathlib.Core.List.{Sublistᴰ}
use mongoose_cpp.Mongoose.{Pointer, MgStr, user, block}
use mongoose_cpp.Http.Endpoint.State.{new}
use mongoose_cpp.Http.Endpoint.Tls.{Copied, UseTls, tls, mtls, tls_view, use_all, destroy}
use mongoose_cpp.Http.Endpoint.Tls.Ownership.{frees_own_blocks, freed_blocks, NotUser}
use mongoose_cpp.Http.Endpoint.Tls.Views.{frees_views}

abbrev copy_of_key : ℕ → Copied
copy_of_key k = record { text = codes "key"; copy = record { buf = block k; bytes = codes "key" } }

abbrev both : UseTls
both = tls (copy_of_key 0) (copy_of_key 1)

abbrev three : UseTls
three = mtls (copy_of_key 2) (copy_of_key 3) (copy_of_key 4)

frees_own_blocks_example :
    All NotUser (destroy (use_all new (three ∷ both ∷ []))).0
    × Sublistᴰ (freed_blocks (destroy (use_all new (three ∷ both ∷ []))).0) (2 ∷ 3 ∷ 4 ∷ 0 ∷ 1 ∷ [])
frees_own_blocks_example = frees_own_blocks (three ∷ both ∷ []) (
    inl (
      (inr (2, refl, refl), inr (3, refl, refl), inr (4, refl, refl)),
      ((inr (0, refl, refl), inr (1, refl, refl)), tt),
    ))

abbrev view_at : ℕ → MgStr
view_at address = record { buf = user address; bytes = codes "key" }

frees_views_example :
    (others : List Pointer) × ((destroy
        (use_all new (both ∷ ([] ++ tls_view (view_at 100) (view_at 200) ∷ [])))).0
      ≡ others ++ user 100 ∷ user 200 ∷ [])
frees_views_example = frees_views new both [] (view_at 100) (view_at 200) tt
