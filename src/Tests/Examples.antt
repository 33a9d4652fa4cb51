-- ===== src/Tests/Examples.antt =====
-- The route /file of the example program, with a file of 32 letters, the text of /headers, and the
-- numbers of seconds that /async/? reads.
use mongoose_cpp.Prelude.{
  ◌≡◌, refl, codes, pos, negsuc, List, [], ◌∷◌, ◌++◌, some, none, Bytes, concat, arith, replicate,
}
use mongoose_cpp.Table.Order.{insertion_order}
use mongoose_cpp.Mongoose.{http_write_chunk, send_bytes, ok}
use mongoose_cpp.Http.Connection.{RemoteContext, context, set_stream}
use mongoose_cpp.Http.Connection.Pump.{pump_writes, chunk_calls}
use mongoose_cpp.Http.Headers.Key.{to_lower}
use mongoose_cpp.Http.Request
use mongoose_cpp.Http.Response
use mongoose_cpp.Http.Response.{Run, act_all}
use mongoose_cpp.Example.File.{file_producer, opened}
use mongoose_cpp.Example.Handlers.{file_handler, headers_body}
use mongoose_cpp.Example.Threads.{to_int}
use mongoose_cpp.Example.Delivery.{file_preamble, file_delivered, file_ends_twice}
use mongoose_cpp.Tests.Samples.{sample_context, promoted}
use mongoose_cpp.Tests.Running.{who}

abbrev letters : Bytes
letters = replicate 32 b'a'

file_delivered_example :
    (r : Run) × (held : RemoteContext) × (chunks : List Bytes) × (act_all insertion_order
        (record { response = Response.new; conn = promoted; calls = [] })
        (file_handler (some letters) (Request.new who sample_context []))
      ≡ ok r)
    × (r.calls ≡ [] ++ send_bytes 7 (file_preamble insertion_order) ∷ [])
    × (r.conn ≡ record promoted { fn_data = context held })
    × (pump_writes 2048 7 (0 ∷ 3000 ∷ 0 ∷ 0 ∷ []) held ≡ (
      chunk_calls 7 chunks ++ http_write_chunk 7 [] ∷ [],
      record sample_context { stream = none },
    ))
    × (concat chunks ≡ letters)
file_delivered_example =
    file_delivered insertion_order promoted sample_context letters
      (Request.new who sample_context []) [] 2048 (0 ∷ 3000 ∷ 0 ∷ 0 ∷ []) refl (omega arith)

file_ends_twice_example :
    (full : List Bytes) × ((pump_writes 2048 7
        (0 ∷ 3000 ∷ 0 ∷ 0 ∷ [])
        (set_stream sample_context (file_producer (opened letters)))).0
      ≡ chunk_calls 7 full ++ http_write_chunk 7 [] ∷ http_write_chunk 7 [] ∷ [])
file_ends_twice_example =
    file_ends_twice promoted sample_context letters 2048 (0 ∷ 3000 ∷ 0 ∷ 0 ∷ []) (omega arith)
      (omega arith)

headers_text :
    headers_body []
    ≡ codes "auth is Bearer [token]"
      ++ (10 ∷ codes "fake is <not found>")
      ++ (10 ∷ codes "X-Fake is warning")
unfolding headers_body to_lower
headers_text = refl

seconds_read : to_int (codes "12") ≡ some (pos 12)
unfolding to_int
seconds_read = refl

below_zero : to_int (codes "-12x") ≡ some (negsuc 11)
unfolding to_int
below_zero = refl

no_number : to_int (codes "x12") ≡ none
unfolding to_int
no_number = refl

too_large : to_int (codes "2147483648") ≡ none
unfolding to_int
too_large = refl
