-- ===== src/Http/Endpoint/Message/Answered.antt =====
-- A request for one synchronous listener, from its arrival to the answer.
use mongoose_cpp.Prelude.{
  ℕ, ◌≤◌, ◌≡◌, refl, ◌∙◌, ap, sym, List, [], ◌++◌, some, Bytes, arith, length, get_elem?, lt→ltb,
  ◌+◌,
}
use mongoose_cpp.Mongoose.{Outcome, ok, ◌>>=◌}
use mongoose_cpp.Http.Connection.{Connection, RemoteContext, context}
use mongoose_cpp.Http.Request
use mongoose_cpp.Http.Request.{Request, Message}
use mongoose_cpp.Http.Response
use mongoose_cpp.Http.Response.{Run, Action}
use mongoose_cpp.Http.Response.Laws.{first_answer_only, first_answer, first_producer}
use mongoose_cpp.Http.Endpoint.State.{System, Env, Listener, sync}
use mongoose_cpp.Http.Endpoint.Message.{
  match_listener, context_of, invoke, serve_listener, serve_matched, handle_http_message, fill,
}
use mongoose_cpp.Http.Endpoint.Message.Overlap.{matching, order_irrelevant, any_match_may_win}

-- Where one listener at most matches, the listener that matches is found in any order.
only_match :
    (env : Env) (uri path : Bytes) (l : Listener) (captures : List Bytes) (i : ℕ)
    (ls : List (Bytes × Listener))
    → get_elem? ls i ≡ some (path, l)
    → env.mg_match uri path ≡ some captures
    → matching env uri ls ≤ 1
    → match_listener env uri (env.listener_order.visit ls) ≡ some (l, captures)
only_match env uri path l captures i ls e m one =
    let (o, q) = any_match_may_win env uri path l captures i ls e m in
    (order_irrelevant env uri env.listener_order env.asset_order ls [] one (omega arith)).0
    ∙ sym (order_irrelevant env uri o env.asset_order ls [] one (omega arith)).0
    ∙ q

context_held :
    (conn : Connection) (c : RemoteContext) → conn.fn_data ≡ context c → context_of conn ≡ ok c
unfolding context_of
context_held conn c h = rw (h, context_of)

serve_listener_sync :
    (env : Env) (conn : Connection) (c : RemoteContext) (msg : Message) (groups : ℕ)
    (handler : Request → List Action) (captures : List Bytes) (s : System)
    → conn.fn_data ≡ context c
    → length captures ≤ groups
    → (r : Connection × System) × (serve_listener env conn msg
          (record { groups = groups; callback = sync handler })
          captures
          s
        ≡ ok r)
      × (r.0 ≡ record conn {
        fn_data =
            context (first_producer c (handler (Request.new msg c (fill (groups + 1) captures))));
      })
      × (r.1 ≡ record s {
        calls =
            s.calls
            ++ first_answer env.header_order conn.id []
                (handler (Request.new msg c (fill (groups + 1) captures)));
      })
unfolding serve_listener invoke Response.new
serve_listener_sync env conn c msg groups handler captures s held fit =
    let request = Request.new msg c (fill (groups + 1) captures) in
    let (r, e, calls, same) =
      first_answer_only env.header_order
        (record { response = Response.new; conn = conn; calls = s.calls }) c (handler request) refl
        held in
    (
      (r.conn, record s { calls = r.calls }),
      rw (lt→ltb (length captures) (groups + 1) (omega arith)) (
          ap
            (λ m. m >>= λ k.
              invoke env conn (sync handler) (Request.new msg k (fill (groups + 1) captures)) s)
            (context_held conn c held)
          ∙ ap (λ (m : Outcome Run). m >>= λ x. ok (x.conn, record s { calls = x.calls })) e),
      same,
      ap (λ z. record s { calls = z }) calls,
    )

-- A request on a connection with a context, whose path matches that of one listener at most, and does
-- match that of a synchronous one, whose vector has room for the captures: of all the calls that its
-- handler makes exactly the first answer goes out, whatever the order of the map; the producer of a
-- streamed answer becomes that of the context, and nothing else changes in the endpoint.
pub sync_request_answered :
    (env : Env) (conn : Connection) (c : RemoteContext) (msg : Message) (path : Bytes)
    (groups i : ℕ) (handler : Request → List Action) (captures : List Bytes) (s : System)
    → conn.fn_data ≡ context c
    → get_elem? s.listeners i ≡ some (path, record { groups = groups; callback = sync handler })
    → env.mg_match msg.uri path ≡ some captures
    → matching env msg.uri s.listeners ≤ 1
    → length captures ≤ groups
    → (r : Connection × System) × (handle_http_message env conn msg s ≡ ok r)
      × (r.0 ≡ record conn {
        fn_data =
            context (first_producer c (handler (Request.new msg c (fill (groups + 1) captures))));
      })
      × (r.1 ≡ record s {
        calls =
            s.calls
            ++ first_answer env.header_order conn.id []
                (handler (Request.new msg c (fill (groups + 1) captures)));
      })
unfolding handle_http_message serve_matched
sync_request_answered env conn c msg path groups i handler captures s held e m one fit =
    let l : Listener = record { groups = groups; callback = sync handler } in
    let (r, q, conns, calls) =
      serve_listener_sync env conn c msg groups handler captures s held fit in
    (
      r,
      ap (λ z. serve_matched env conn msg z s)
            (only_match env msg.uri path l captures i s.listeners e m one)
          ∙ q,
      conns,
      calls,
    )
