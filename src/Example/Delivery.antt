-- ===== src/Example/Delivery.antt =====
-- The route /file of the example program, from its handler to the last chunk.
use mongoose_cpp.Prelude.{
  ℕ, ◌+◌, ◌/◌, ◌%◌, ◌<◌, ◌≡◌, refl, ap, ◌∙◌, false, List, [], ◌∷◌, ◌++◌, none, some, Bytes, codes,
  concat, arith, length, append_assoc,
}
use mathlib.Core.List.{map-append}
use mongoose_cpp.Table.Order.{Order}
use mongoose_cpp.Mongoose.{MgCall, http_write_chunk, send_bytes, ok}
use mongoose_cpp.Http.Headers
use mongoose_cpp.Http.Headers.{Entry}
use mongoose_cpp.Http.Headers.Laws.{setting, apply}
use mongoose_cpp.Http.Status
use mongoose_cpp.Http.Connection.{Connection, RemoteContext, context, set_stream}
use mongoose_cpp.Http.Connection.Pump.{pump_writes, chunk_calls, rooms, pump_drains}
use mongoose_cpp.Http.Request.{Request}
use mongoose_cpp.Http.Response
use mongoose_cpp.Http.Response.{Run, act_all, header, stream}
use mongoose_cpp.Http.Response.Laws.{first_answer_only}
use mongoose_cpp.Example.File.{file_chunks, file_producer, opened}
use mongoose_cpp.Example.File.Chunks.{
  concat-file_chunks, length-file_chunks, file_producer-Yields, file_chunks-ends_empty,
}
use mongoose_cpp.Example.Handlers.{file_handler}

-- What the handler sends ahead of the chunks.
abbrev pub file_preamble : Order Entry → Bytes
file_preamble o = Status.preamble (Status.value Status.ok) (
    Headers.format o
      (Headers.set
        (Headers.remove (apply [] (setting (codes "Content-Type") (codes "text/plain")))
          (codes "Content-Length"))
        (codes "Transfer-Encoding") (codes "chunked"))
      false 0)

-- The handler's run on a new response leaves the file's producer in the connection's context.
file_handled :
    (o : Order Entry) (conn : Connection) (c : RemoteContext) (content : Bytes) (req : Request)
    (calls : List MgCall)
    → conn.fn_data ≡ context c
    → (r : Run) × (act_all o
          (record { response = Response.new; conn = conn; calls = calls })
          (file_handler (some content) req)
        ≡ ok r)
      × (r.calls ≡ calls ++ send_bytes conn.id (file_preamble o) ∷ [])
      × (r.conn ≡ record conn { fn_data = context (set_stream c (file_producer (opened content))) })
unfolding file_handler Response.new
file_handled o conn c content req calls held =
    first_answer_only o (record { response = Response.new; conn = conn; calls = calls }) c
      (file_handler (some content) req) refl held

-- A request to /file, while the file can be opened, on a connection that has its context: behind the
-- preamble, write events of which enough find room in the send buffer write chunks that join to the
-- content of the file, and behind them the chunk that ends the answer, and then let go of the
-- producer; so many are enough as there are steps of 32 characters in the content, and two.
pub file_delivered :
    (o : Order Entry) (conn : Connection) (c : RemoteContext) (content : Bytes) (req : Request)
    (calls : List MgCall) (io_size : ℕ) (lens : List ℕ)
    → conn.fn_data ≡ context c
    → length content / 32 + 1 < rooms io_size lens
    → (r : Run) × (held : RemoteContext) × (chunks : List Bytes) × (act_all o
          (record { response = Response.new; conn = conn; calls = calls })
          (file_handler (some content) req)
        ≡ ok r)
      × (r.calls ≡ calls ++ send_bytes conn.id (file_preamble o) ∷ [])
      × (r.conn ≡ record conn { fn_data = context held })
      × (pump_writes io_size conn.id lens held ≡ (
        chunk_calls conn.id chunks ++ http_write_chunk conn.id [] ∷ [],
        record c { stream = none },
      ))
      × (concat chunks ≡ content)
unfolding set_stream file_producer
file_delivered o conn c content req calls io_size lens held room =
    let (r, e, sent, kept) = file_handled o conn c content req calls held in
    (
      r,
      set_stream c (file_producer (opened content)),
      file_chunks content,
      e,
      sent,
      kept,
      pump_drains io_size conn.id c (file_producer (opened content)).next 0 (file_chunks content)
          lens (file_producer-Yields content) (omega (arith, room, length-file_chunks content)),
      concat-file_chunks content,
    )

-- Where the length of the file is a multiple of 32, the last two of these writes are both the chunk
-- that ends an answer.
pub file_ends_twice :
    (conn : Connection) (c : RemoteContext) (content : Bytes) (io_size : ℕ) (lens : List ℕ)
    → length content % 32 ≡ 0
    → length content / 32 + 1 < rooms io_size lens
    → (full : List Bytes) × ((pump_writes io_size conn.id lens
          (set_stream c (file_producer (opened content)))).0
        ≡ chunk_calls conn.id full
          ++ http_write_chunk conn.id [] ∷ http_write_chunk conn.id [] ∷ [])
unfolding set_stream file_producer
file_ends_twice conn c content io_size lens even room =
    let (full, e) = file_chunks-ends_empty content even in
    (
      full,
      ap (λ r. r.0)
            (pump_drains io_size conn.id c (file_producer (opened content)).next 0
              (file_chunks content) lens (file_producer-Yields content)
              (omega (arith, room, length-file_chunks content)))
          ∙ ap (λ l. chunk_calls conn.id l ++ http_write_chunk conn.id [] ∷ []) e
          ∙ ap (λ l. l ++ http_write_chunk conn.id [] ∷ [])
              (map-append (http_write_chunk conn.id) full ([] ∷ []))
          ∙ append_assoc (chunk_calls conn.id full) (http_write_chunk conn.id [] ∷ [])
              (http_write_chunk conn.id [] ∷ []),
    )
