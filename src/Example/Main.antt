-- ===== src/Example/Main.antt =====
-- How examples/simple/src/main.cpp sets its server up, and the loop of main.
use mongoose_cpp.Prelude.{
  ℕ, zero, suc, ◌≡◌, refl, ap, ◌++◌, List, [], ◌∷◌, Option, none, some, Bytes, codes, Bool, true,
  false, pos, replicate, concat,
}
use mongoose_cpp.Server.Lifecycle.{MgrCall, poll, stop}
use mongoose_cpp.Table.Order.{Order}
use mongoose_cpp.Http.Headers.{Entry}
use mongoose_cpp.Http.Endpoint.State.{Endpoint}
use mongoose_cpp.Http.Endpoint.Register.{
  on_request, on_async_request, on_fallback, on_asset, on_assets,
}
use mongoose_cpp.Http.Endpoint.Tls.{Copied, use_tls, use_mtls}
use mongoose_cpp.Example.Handlers.{
  simple_handler, simple, lambda_handler, who, headers_handler, file_handler, api, cert,
  fallback_handler,
}
use mongoose_cpp.Example.Threads.{detach}

-- The builds that the preprocessor tells apart: MG_TLS is none, the built-in one, or OpenSSL or
-- mbedTLS.
pub data Build : Type 0 where
  plain builtin full : Build

-- `read_file`, over what the file system holds.
unfoldable pub read_file : (Bytes → Option Bytes) → Bytes → Option Bytes
read_file files path = files path

-- How main ends up: it returns 1 with a message, or serves an endpoint.
pub data Started : Type 0 where
  exits : Bytes → Started
  serves : Endpoint → Started

abbrev pub host : Build → Bytes
host plain = codes "http://127.0.0.1:4200"
host builtin = codes "https://127.0.0.1:4200"
host full = codes "https://127.0.0.1:4200"

-- The synchronous routes; `counter` and `file` are what the handlers find when they run.
unfoldable pub add_routes : ℕ → Option Bytes → Endpoint → Endpoint
add_routes counter file e0 =
    let e1 = on_request e0 (codes "/joke") simple_handler in
    let e2 = on_request e1 (codes "/class") (simple 67) in
    let e3 = on_request e2 (codes "/lambda") (lambda_handler counter) in
    let e4 = on_request e3 (codes "/who") who in
    let e5 = on_request e4 (codes "/headers") headers_handler in
    let e6 = on_request e5 (codes "/file") (file_handler file) in
    let e7 = on_request e6 (codes "/api/#") api in
    let e8 = on_request e7 (codes "/cert") cert in on_fallback e8 fallback_handler

unfoldable pub add_async_routes : Endpoint → Endpoint
add_async_routes e0 =
    let e1 = on_async_request e0 (codes "/async/cert") detach in
    let e2 = on_async_request e1 (codes "/async/who") detach in
    let e3 = on_async_request e2 (codes "/async/file") detach in
    on_async_request e3 (codes "/async/?") detach

-- `absolute` is `std::filesystem::absolute` below the directory of the examples.
unfoldable pub add_assets : Order Entry → (Bytes → Bytes) → Endpoint → Endpoint
add_assets o absolute e =
    on_assets (on_asset o e (codes "/") (absolute (codes "simple.html")) [] [])
      ((codes "/assets/#", absolute (codes "assets")) ∷ [])

unfoldable pub add_all : Order Entry → (Bytes → Bytes) → ℕ → Option Bytes → Endpoint → Endpoint
unfolding add_routes add_async_routes add_assets
add_all o absolute counter file e =
    add_assets o absolute (add_async_routes (add_routes counter file e))

abbrev failed_to_load : Bytes → Started
failed_to_load what = exits (codes "[mgxx::server] Failed to load server's " ++ what ++ 10 ∷ [])

-- Listening, and `use_tls` on the endpoint that it returns.
unfoldable pub listen : Build → Option Endpoint → (Endpoint → Endpoint) → Started
listen build none material =
    exits (codes "[mgxx::server] Failed to listen on " ++ host build ++ 10 ∷ [])
listen build (some e) material = serves (material e)

-- `copy` is what `mg_strdup` makes of a text, `listened` the endpoint that `listen_http` returns.
unfoldable pub start : Build → (Bytes → Option Bytes) → (Bytes → Copied) → Option Endpoint → Started
unfolding read_file listen
start plain files copy listened = listen plain listened (λ e. e)
start builtin files copy listened = elim (read_file files (codes "../../server.crt")) [
  | none ↦ failed_to_load (codes "certificate")
  | some crt ↦ (elim (read_file files (codes "../../server.key")) [
    | none ↦ failed_to_load (codes "key")
    | some key ↦ listen builtin listened (λ e. use_tls e (copy crt) (copy key))
  ])
]
start full files copy listened = elim (read_file files (codes "../../root.pem")) [
  | none ↦ failed_to_load (codes "root key")
  | some ca ↦ (elim (read_file files (codes "../../server.crt")) [
    | none ↦ failed_to_load (codes "certificate")
    | some crt ↦ (elim (read_file files (codes "../../server.key")) [
      | none ↦ failed_to_load (codes "key")
      | some key ↦ listen full listened (λ e. use_mtls e (copy ca) (copy crt) (copy key))
    ])
  ])
]

-- The handler of SIGINT, by what it leaves in `is_running`.
unfoldable pub signal_handler : Bool → Bool
signal_handler is_running = false

-- The loop of main over the values that its reads of `is_running` see, the first one first; when they
-- end, the loop still runs. At the end of main the destructor of the server stops it.
unfoldable pub main_loop : Bool → List Bool → List MgrCall
unfolding poll stop
main_loop has_psa [] = []
main_loop has_psa (true ∷ seen) = poll (pos 100) ++ main_loop has_psa seen
main_loop has_psa (false ∷ seen) = stop has_psa

-- However often the loop has polled, once the signal handler has run it stops the server, and makes
-- no other call behind that.
pub main_loop-signal_handler :
    (has_psa is_running : Bool) (n : ℕ) (seen : List Bool)
    → main_loop has_psa (replicate n true ++ signal_handler is_running ∷ seen)
      ≡ concat (replicate n (poll (pos 100))) ++ stop has_psa
unfolding main_loop signal_handler
main_loop-signal_handler has_psa is_running zero seen = refl
main_loop-signal_handler has_psa is_running (suc n) seen =
    ap (λ l. poll (pos 100) ++ l) (main_loop-signal_handler has_psa is_running n seen)
