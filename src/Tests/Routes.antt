-- ===== src/Tests/Routes.antt =====
-- Routes, captures and registrations.
use mongoose_cpp.Prelude.{◌≡◌, refl, true, [], ◌∷◌, codes, arith}
use mathlib.Core.List.{reverse}
use mathlib.Core.List.Permᴰ
use mongoose_cpp.Table.Order.{Order, insertion_order}
use mongoose_cpp.Mongoose.{ok}
use mongoose_cpp.Http.Endpoint.State.{new, Listener, sync}
use mongoose_cpp.Http.Endpoint.Wakeup.{not_found_reply}
use mongoose_cpp.Http.Endpoint.Message.{handle_http_message, match_listener, match_asset}
use mongoose_cpp.Http.Endpoint.Message.Routing.{unrouted_not_found}
use mongoose_cpp.Http.Endpoint.Message.Overlap.{order_irrelevant}
use mongoose_cpp.Example.Handlers.{simple_handler, simple}
use mongoose_cpp.Http.Endpoint.Register.{on_asset, on_assets_pair, resource}
use mongoose_cpp.Http.Endpoint.Register.Laws.{file_after_directory}
use mongoose_cpp.Http.AsyncResponse.State.{ResponseState}
use mongoose_cpp.Tests.Samples.{sample_env, promoted, one_response}
use mongoose_cpp.Tests.Running.{who}

unrouted_not_found_example :
    handle_http_message sample_env promoted who (one_response ResponseState.pending)
    ≡ ok (promoted, record (one_response ResponseState.pending) { calls = not_found_reply 7 ∷ [] })
unrouted_not_found_example =
    unrouted_not_found sample_env promoted who (one_response ResponseState.pending) tt tt refl

file_after_directory_example :
    ((resource
        (on_asset insertion_order
          (on_assets_pair new (codes "/a") (codes "dir"))
          (codes "/a")
          (codes "f.txt")
          (codes "text/plain")
          [])
        (codes "/a")).path
      ≡ codes "f.txt")
    × ((resource
          (on_asset insertion_order
            (on_assets_pair new (codes "/a") (codes "dir"))
            (codes "/a")
            (codes "f.txt")
            (codes "text/plain")
            [])
          (codes "/a")).mime_type
        ≡ codes "text/plain")
    × ((resource
          (on_asset insertion_order
            (on_assets_pair new (codes "/a") (codes "dir"))
            (codes "/a")
            (codes "f.txt")
            (codes "text/plain")
            [])
          (codes "/a")).is_dir
        ≡ true)
file_after_directory_example =
    file_after_directory insertion_order new (codes "/a") (codes "dir") (codes "f.txt")
      (codes "text/plain") []

-- Two listeners, visited from the last to the first, and no asset.
abbrev reversed {ℓ} : {A : Type ℓ} → Order A
reversed = record { visit = reverse; visit_perm = Permᴰ.reverse }

abbrev joke : Listener
joke = record { groups = 0; callback = sync simple_handler }

abbrev class_member : Listener
class_member = record { groups = 0; callback = sync (simple 67) }

order_irrelevant_example :
    (match_listener sample_env
        (codes "/joke")
        ((codes "/class", class_member) ∷ (codes "/joke", joke) ∷ [])
      ≡ match_listener sample_env
          (codes "/joke")
          ((codes "/joke", joke) ∷ (codes "/class", class_member) ∷ []))
    × (match_asset sample_env (codes "/joke") [] ≡ match_asset sample_env (codes "/joke") [])
order_irrelevant_example =
    order_irrelevant sample_env (codes "/joke") reversed reversed
      ((codes "/joke", joke) ∷ (codes "/class", class_member) ∷ []) [] (omega arith) (omega arith)
