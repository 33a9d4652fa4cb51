-- ===== src/Example/Routes.antt =====
-- The routes of examples/simple/src/main.cpp, as the endpoint serves them.
use mongoose_cpp.Prelude.{
  ℕ, ◌≤◌, ◌≡◌, refl, ◌∙◌, ap, List, [], ◌∷◌, ◌++◌, Option, some, Bytes, false, sym, arith, codes,
  c_str, get_elem?,
}
use mongoose_cpp.Table.{assign}
use mongoose_cpp.Table.Order.{Order}
use mongoose_cpp.Mongoose.{ok, http_reply}
use mongoose_cpp.Http.Connection.{Connection, RemoteContext, context}
use mongoose_cpp.Http.Headers.{Entry, format}
use mongoose_cpp.Http.Request
use mongoose_cpp.Http.Request.{Message}
use mongoose_cpp.Http.Status.{value, ok as ok_status}
use mongoose_cpp.Http.Endpoint.State.{System, Env, Listener, sync, async, new}
use mongoose_cpp.Http.Endpoint.Register.{
  count_groups, on_assets, on_asset, on_async_request, on_fallback, on_request,
}
use mongoose_cpp.Http.Endpoint.Message.{handle_http_message}
use mongoose_cpp.Http.Endpoint.Message.Overlap.{matching}
use mongoose_cpp.Http.Endpoint.Message.Answered.{sync_request_answered}
use mongoose_cpp.Example.Handlers.{
  simple_handler, simple, lambda_handler, who, headers_handler, file_handler, api, cert,
}
use mongoose_cpp.Example.Threads.{detach}
use mongoose_cpp.Example.Main.{add_all}

-- The listeners that main registers, in the order of its calls.
abbrev pub routes : ℕ → Option Bytes → List (Bytes × Listener)
routes counter file =
    (codes "/joke", record { groups = 0; callback = sync simple_handler })
    ∷ (codes "/class", record { groups = 0; callback = sync (simple 67) })
    ∷ (codes "/lambda", record { groups = 0; callback = sync (lambda_handler counter) })
    ∷ (codes "/who", record { groups = 0; callback = sync who })
    ∷ (codes "/headers", record { groups = 0; callback = sync headers_handler })
    ∷ (codes "/file", record { groups = 0; callback = sync (file_handler file) })
    ∷ (codes "/api/#", record { groups = 1; callback = sync api })
    ∷ (codes "/cert", record { groups = 0; callback = sync cert })
    ∷ (codes "/async/cert", record { groups = 0; callback = async detach })
    ∷ (codes "/async/who", record { groups = 0; callback = async detach })
    ∷ (codes "/async/file", record { groups = 0; callback = async detach })
    ∷ (codes "/async/?", record { groups = 1; callback = async detach })
    ∷ []

pub add_all-routes :
    (o : Order Entry) (absolute : Bytes → Bytes) (counter : ℕ) (file : Option Bytes)
    → (add_all o absolute counter file new).listeners ≡ routes counter file
unfolding add_all new assign count_groups on_assets on_asset on_async_request on_fallback on_request
add_all-routes o absolute counter file = refl

-- On the endpoint that main sets up, a request whose path matches that of /api/# alone, with one
-- capture, on a connection with its context, gets one reply, which shows the capture; nothing else
-- changes, whatever the order of the map.
pub api_answered :
    (env : Env) (o : Order Entry) (absolute : Bytes → Bytes) (counter : ℕ) (file : Option Bytes)
    (conn : Connection) (c : RemoteContext) (msg : Message) (name : Bytes) (s : System)
    → s.listeners ≡ (add_all o absolute counter file new).listeners
    → conn.fn_data ≡ context c
    → env.mg_match msg.uri (codes "/api/#") ≡ some (name ∷ [])
    → matching env msg.uri s.listeners ≤ 1
    → handle_http_message env conn msg s
      ≡ ok (
        conn,
        record s {
          calls =
              s.calls
              ++ http_reply conn.id
                  (value ok_status)
                  (c_str (format env.header_order [] false 0))
                  (codes "I'm capturing one group for API endpoints: " ++ name)
                ∷ [];
        },
      )
unfolding api Request.new
api_answered env o absolute counter file conn c msg name s same held m one =
    let at : get_elem? s.listeners 6
        ≡ some (codes "/api/#", record { groups = 1; callback = sync api }) =
      ap (λ l. get_elem? l 6) (same ∙ add_all-routes o absolute counter file) in
    let (r, e, kept, calls) =
      sync_request_answered env conn c msg (codes "/api/#") 1 6 api (name ∷ []) s held at m one
        (omega arith) in
    let whole : r.0 ≡ conn = kept ∙ ap (λ d. record conn { fn_data = d }) (sym held) in
    e ∙ ap (λ z. ok (z, r.1)) whole ∙ ap (λ z. ok (conn, z)) calls
