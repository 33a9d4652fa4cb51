-- ===== src/Tests/Requests.antt =====
-- Requests to the routes of the example program.
use mongoose_cpp.Prelude.{
  ◌≡◌, ◌↔◌, ℕ, ltb, leb, get_elem?, ◌+◌, ◌&&◌, refl, sym, List, [], ◌∷◌, ◌++◌, Option, none, some,
  Bytes, codes, c_str, arith, bytes_eq, take, drop, false, if◌then◌else◌,
}
use mongoose_cpp.Table.Order.{insertion_order}
use mongoose_cpp.Mongoose.{ok, http_reply}
use mongoose_cpp.Http.Connection.{Connection}
use mongoose_cpp.Http.Headers.{format}
use mongoose_cpp.Http.Request
use mongoose_cpp.Http.Request.{Request, Message, get_param, get_remote_ip}
use mongoose_cpp.Http.Response.Laws.{first_answer}
use mongoose_cpp.Http.Status.{value, ok as ok_status}
use mongoose_cpp.Http.Endpoint.State.{System, Env, async, sync}
use mongoose_cpp.Http.Endpoint.Message.{handle_http_message, match_listener, fill, invoke}
use mongoose_cpp.Http.Endpoint.Message.Overlap.{FirstMatch, FirstMatch-wins}
use mongoose_cpp.Http.Endpoint.Message.Routing.{get_param_groups}
use mongoose_cpp.Http.Endpoint.Message.Answered.{sync_request_answered}
use mongoose_cpp.Example.Handlers.{who as who_handler, api}
use mongoose_cpp.Example.Threads.{detach}
use mongoose_cpp.Example.Routes.{routes, add_all-routes, api_answered}
use mongoose_cpp.Tests.Samples.{sample_env, sample_context, promoted, system_with}
use mongoose_cpp.Tests.Running.{who}

-- The path itself, and the rest of it where the pattern ends in a wildcard.
abbrev route_match : Bytes → Bytes → Option (List Bytes)
route_match uri pattern' =
    if bytes_eq uri pattern'
    then some []
    else if bytes_eq pattern' (codes "/api/#") && bytes_eq (take 5 uri) (codes "/api/")
    then some (drop 5 uri ∷ [])
    else if bytes_eq pattern' (codes "/async/?") && bytes_eq (take 7 uri) (codes "/async/")
    then some (drop 7 uri ∷ [])
    else none

abbrev route_env : Env
route_env = record sample_env { mg_match = route_match }

abbrev served : System
served = record (system_with [] [] [] []) {
  endpoint = record ((system_with [] [] [] []).endpoint) { listeners = routes 0 none };
}

abbrev me : Message
me = record who { uri = codes "/api/me" }

sync_request_answered_example :
    (r : Connection × System) × (handle_http_message route_env promoted who served ≡ ok r)
    × (r.0 ≡ promoted)
    × (r.1 ≡ record served {
      calls =
          []
          ++ first_answer insertion_order 7 []
              (who_handler (Request.new who sample_context (fill (0 + 1) [])));
    })
unfolding who_handler
sync_request_answered_example =
    sync_request_answered route_env promoted sample_context who (codes "/who") 0 3 who_handler []
      served refl refl refl (omega arith) (omega arith)

api_answered_example :
    handle_http_message route_env promoted me served
    ≡ ok (
      promoted,
      record served {
        calls =
            []
            ++ http_reply 7
                (value ok_status)
                (c_str (format insertion_order [] false 0))
                (codes "I'm capturing one group for API endpoints: " ++ codes "me")
              ∷ [];
      },
    )
api_answered_example =
    api_answered route_env insertion_order (λ path. path) 0 none promoted sample_context me
      (codes "me") served (sym (add_all-routes insertion_order (λ path. path) 0 none)) refl refl
      (omega arith)

-- In the order of insertion, /async/who wins over /async/?.
FirstMatch-wins_example :
    (match_listener route_env (codes "/async/who") (insertion_order.visit (routes 0 none))
      ≡ some (record { groups = 0; callback = async detach }, []))
    ↔ FirstMatch route_env
        (codes "/async/who")
        (insertion_order.visit (routes 0 none))
        (some (record { groups = 0; callback = async detach }, []))
FirstMatch-wins_example =
    FirstMatch-wins route_env (codes "/async/who") insertion_order (routes 0 none)
      (some (record { groups = 0; callback = async detach }, []))

get_param_groups_example :
    (request : Request) × (handle_http_message route_env promoted me served
      ≡ invoke route_env promoted (sync api) request served)
    × (request.msg ≡ me)
    × (get_remote_ip request ≡ sample_context.ip)
    × ((i : ℕ)
        → get_param request i
          ≡ (if ltb i 1 then get_elem? (codes "me" ∷ []) i else if leb i 1 then some [] else none))
unfolding match_listener
get_param_groups_example =
    get_param_groups route_env promoted me (record { groups = 1; callback = sync api })
      (codes "me" ∷ []) sample_context served refl (omega arith) refl
