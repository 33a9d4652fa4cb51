-- ===== src/Http/Response/Laws.antt =====
-- The synchronous response: of all that a handler calls, the first answer goes out, and only that.
use mongoose_cpp.Prelude.{
  ℕ, ◌≡◌, refl, sym, ◌∙◌, ap, ℤ, true, false, List, [], ◌∷◌, ◌++◌, Bytes, codes, c_str, arith,
  append-nil,
}
use mongoose_cpp.Table.Order.{Order}
use mongoose_cpp.Mongoose.{MgCall, http_reply, send_bytes, ok, ◌>>=◌}
use mongoose_cpp.Http.Headers
use mongoose_cpp.Http.Headers.{Headers, Entry}
use mongoose_cpp.Http.Headers.Laws.{apply}
use mongoose_cpp.Http.Status
use mongoose_cpp.Http.Connection.{RemoteContext, FnData, context, set_stream, Producer}
use mongoose_cpp.Http.Response.{
  Run, Action, header, send, stream, act_all, send_reply, stream_reply, attach,
}

-- The answer that a list of calls makes on the connection `conn`, starting from some headers: that
-- of its first `send` or `stream`.
abbrev pub first_answer : Order Entry → ℕ → Headers → List Action → List MgCall
first_answer o conn h [] = []
first_answer o conn h (header w ∷ rest) = first_answer o conn (apply h w) rest
first_answer o conn h (send code body ∷ rest) =
    http_reply conn code (c_str (Headers.format o h false 0)) body ∷ []
first_answer o conn h (stream code encoding producer ∷ rest) =
    send_bytes conn (
      Status.preamble code (
        Headers.format o
          (Headers.set (Headers.remove h (codes "Content-Length")) (codes "Transfer-Encoding")
            encoding)
          false 0))
    ∷ []

-- The producer that the calls attach: that of the first answer, where it streams.
abbrev pub first_producer : RemoteContext → List Action → RemoteContext
first_producer c [] = c
first_producer c (header w ∷ rest) = first_producer c rest
first_producer c (send code body ∷ rest) = c
first_producer c (stream code encoding producer ∷ rest) = set_stream c producer

send_closed :
    (o : Order Entry) (r : Run) (code : ℤ) (body : Bytes)
    → r.response.is_open ≡ false
    → send_reply o r code body ≡ r
unfolding send_reply
send_closed o r code body h = ground arith

stream_closed :
    (o : Order Entry) (r : Run) (code : ℤ) (encoding : Bytes) (producer : Producer)
    → r.response.is_open ≡ false
    → stream_reply o r code encoding producer ≡ ok r
unfolding stream_reply
stream_closed o r code encoding producer h = ground arith

send_opened :
    (o : Order Entry) (r : Run) (code : ℤ) (body : Bytes)
    → r.response.is_open ≡ true
    → send_reply o r code body ≡ record {
      response = record { is_open = false; headers = r.response.headers };
      conn = r.conn;
      calls = r.calls ++ first_answer o r.conn.id r.response.headers (send code body ∷ []);
    }
unfolding send_reply
send_opened o r code body h = ground arith

attach_context :
    (d : FnData) (c : RemoteContext) (producer : Producer)
    → d ≡ context c
    → attach d producer ≡ ok (context (set_stream c producer))
unfolding attach
attach_context d c producer e = rw e

stream_opened :
    (o : Order Entry) (r : Run) (c : RemoteContext) (code : ℤ) (encoding : Bytes)
    (producer : Producer)
    → r.response.is_open ≡ true
    → r.conn.fn_data ≡ context c
    → stream_reply o r code encoding producer
      ≡ ok (record {
        response = record {
          is_open = false;
          headers =
              Headers.set
                (Headers.remove r.response.headers (codes "Content-Length"))
                (codes "Transfer-Encoding")
                encoding;
        };
        conn = record (r.conn) { fn_data = context (set_stream c producer) };
        calls =
            r.calls
            ++ first_answer o r.conn.id r.response.headers (stream code encoding producer ∷ []);
      })
unfolding stream_reply
stream_opened o r c code encoding producer h held =
    rw h (
      ap (λ m. m >>= λ fn_data. ok (opened fn_data))
        (attach_context r.conn.fn_data c producer held))
  where
    opened : FnData → Run
    opened fn_data = record {
      response = record {
        is_open = false;
        headers =
            Headers.set (Headers.remove r.response.headers (codes "Content-Length"))
              (codes "Transfer-Encoding") encoding;
      };
      conn = record (r.conn) { fn_data = fn_data };
      calls =
          r.calls
          ++ first_answer o r.conn.id r.response.headers (stream code encoding producer ∷ []);
    }

-- The further calls succeed, and leave the connection and the calls made on it alone.
abbrev Quiet : Order Entry → List Action → Run → Type 0
Quiet o actions r =
    (r' : Run) × (act_all o r actions ≡ ok r') × (r'.calls ≡ r.calls) × (r'.conn ≡ r.conn)

-- Once the response is closed, every call is a no-op but for the headers.
closed_ignores :
    (o : Order Entry) (r : Run) (actions : List Action)
    → r.response.is_open ≡ false
    → Quiet o actions r
unfolding act_all
closed_ignores o r [] h = (r, refl, refl, refl)
closed_ignores o r (header w ∷ rest) h =
    closed_ignores o
      (record r { response = record (r.response) { headers = apply r.response.headers w } }) rest h
closed_ignores o r (send code body ∷ rest) h =
    let (r', e, calls, conn) = closed_ignores o r rest h in
    (r', ap (λ x. act_all o x rest) (send_closed o r code body h) ∙ e, calls, conn)
closed_ignores o r (stream code encoding producer ∷ rest) h =
    let (r', e, calls, conn) = closed_ignores o r rest h in
    (
      r',
      ap (λ m. m >>= λ x. act_all o x rest) (stream_closed o r code encoding producer h) ∙ e,
      calls,
      conn,
    )

-- On a connection with a context no call fails; of all the calls that a handler makes on an open
-- response, in any order and number, exactly the first `send` or `stream` reaches the connection,
-- with the headers set before it, and its producer, if it streams, becomes the context's.
pub first_answer_only :
    (o : Order Entry) (r : Run) (c : RemoteContext) (actions : List Action)
    → r.response.is_open ≡ true
    → r.conn.fn_data ≡ context c
    → (r' : Run) × (act_all o r actions ≡ ok r')
      × (r'.calls ≡ r.calls ++ first_answer o r.conn.id r.response.headers actions)
      × (r'.conn ≡ record (r.conn) { fn_data = context (first_producer c actions) })
unfolding act_all
first_answer_only o r c [] opened held = (r, refl, sym (append-nil r.calls), ground arith)
first_answer_only o r c (header w ∷ rest) opened held =
    first_answer_only o
      (record r { response = record (r.response) { headers = apply r.response.headers w } }) c rest
      opened held
first_answer_only o r c (send code body ∷ rest) opened held =
    let (r', e, calls, conn) = closed_ignores o _ rest refl in
    (
      r',
      ap (λ x. act_all o x rest) (send_opened o r code body opened) ∙ e,
      calls,
      conn ∙ ground arith,
    )
first_answer_only o r c (stream code encoding producer ∷ rest) opened held =
    let (r', e, calls, conn) = closed_ignores o _ rest refl in
    (
      r',
      ap (λ m. m >>= λ x. act_all o x rest) (stream_opened o r c code encoding producer opened held)
          ∙ e,
      calls,
      conn,
    )
