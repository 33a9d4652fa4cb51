-- ===== src/Server/Logger.antt =====
-- The logger: characters of mongoose's log are gathered and handed to the listener by the line, or
-- when the buffer is full.
use mongoose_cpp.Prelude.{
  ℕ, zero, suc, ◌+◌, ◌<◌, ◌≤◌, ◌≡◌, refl, sym, ap, ◌∙◌, ◌||◌, List, [], ◌∷◌, ◌++◌, Bytes, arith,
  length, ◌==◌, leb, if◌then◌else◌, replicate, set, take, concat, All, append_assoc, append-nil,
  length-set, length-replicate, length-take, All-append, Bool-cases, inl, inr,
}
use native.Mathlib.Numerals.{unary_clauses}

-- `m_logger`: the buffer by its bytes, and the messages that the listener was invoked with.
pub record Logger : Type 0 where
  pub buffer : Bytes
  pub offset : ℕ
  pub messages : List Bytes

-- `register_logger`, for a server that has a listener: `resize` fills up with zero bytes.
unfoldable pub register_logger : ℕ → Logger
register_logger size = record { buffer = replicate size 0; offset = 0; messages = [] }

-- `buffer[offset++] = ch`, and the test behind it.
unfoldable pub flush : Logger → ℕ → Logger
flush l ch =
    if ch == 10 || leb (length l.buffer) l.offset
    then record l { messages = l.messages ++ take l.offset l.buffer ∷ []; offset = 0 }
    else l

unfoldable pub event_manager_logger : Logger → ℕ → Logger
unfolding flush
event_manager_logger l ch =
    flush (record l { buffer = set l.buffer l.offset ch; offset = l.offset + 1 }) ch

unfoldable pub log_all : Logger → List ℕ → Logger
log_all l [] = l
log_all l (ch ∷ chars) = log_all (event_manager_logger l ch) chars

-- What was logged and not handed over yet.
abbrev pub unflushed : Logger → Bytes
unflushed l = take l.offset l.buffer

-- The next character has its place in the buffer, and every message was cut as it should be.
pub record IsOpen (size : ℕ) (l : Logger) : Type 0 where
  pub room : l.offset < length l.buffer
  pub sized : length l.buffer ≡ size
  pub cut : All (λ (m : Bytes). length m ≤ size) l.messages

take-set_next :
    (xs : Bytes) (i v : ℕ) → i < length xs → take (suc i) (set xs i v) ≡ take i xs ++ v ∷ []
take-set_next [] i v h = elim h [ ]
take-set_next (x ∷ xs) zero v h = refl
take-set_next (x ∷ xs) (suc i) v h = ap (◌∷◌ x) (take-set_next xs i v (omega arith))

-- All that was logged, in order: what was handed over, and what was not yet.
abbrev pub logged : Logger → Bytes
logged l = concat l.messages ++ unflushed l

concat-append : (xss : List Bytes) (xs : Bytes) → concat (xss ++ xs ∷ []) ≡ concat xss ++ xs
concat-append [] xs = append-nil xs
concat-append (ys ∷ xss) xs =
    ap (◌++◌ ys) (concat-append xss xs) ∙ sym (append_assoc ys (concat xss) xs)

flush-logged : (l : Logger) (ch : ℕ) → logged (flush l ch) ≡ logged l
unfolding flush
flush-logged l ch = elim (Bool-cases (ch == 10 || leb (length l.buffer) l.offset)) [
  | inl p ↦ rw p (
      append-nil (concat (l.messages ++ take l.offset l.buffer ∷ []))
      ∙ concat-append l.messages (take l.offset l.buffer))
  | inr p ↦ rw p
]

flush-IsOpen :
    (size : ℕ) (l : Logger) (ch : ℕ)
    → 0 < size
    → l.offset ≤ length l.buffer
    → length l.buffer ≡ size
    → All (λ (m : Bytes). length m ≤ size) l.messages
    → IsOpen size (flush l ch)
unfolding flush
flush-IsOpen size l ch h le e c = elim (Bool-cases (ch == 10 || leb (length l.buffer) l.offset)) [
  | inl p ↦ rw p (record {
    room = omega (arith, h, e);
    sized = e;
    cut =
        All-append (λ (m : Bytes). length m ≤ size) l.messages (take l.offset l.buffer ∷ []) c
          (omega (arith, length-take l.offset l.buffer, e), tt);
  })
  | inr p ↦ rw p (record { room = ground (arith, p, le); sized = e; cut = c })
]

logger_step :
    (size : ℕ) (l : Logger) (ch : ℕ)
    → 0 < size
    → IsOpen size l
    → (logged (event_manager_logger l ch) ≡ logged l ++ ch ∷ [])
      × IsOpen size (event_manager_logger l ch)
unfolding event_manager_logger
logger_step size l ch h o =
    let w : Logger = record l { buffer = set l.buffer l.offset ch; offset = l.offset + 1 } in
    let n : length w.buffer ≡ length l.buffer = length-set l.buffer l.offset ch in
    let t : take (l.offset + 1) w.buffer ≡ take l.offset l.buffer ++ ch ∷ [] =
      simp unary_clauses (take-set_next l.buffer l.offset ch (o.room)) in
    (
      flush-logged w ch
          ∙ ap (◌++◌ (concat l.messages)) t
          ∙ sym (append_assoc (concat l.messages) (take l.offset l.buffer) (ch ∷ [])),
      flush-IsOpen size w ch h (omega (arith, n, o.room)) (n ∙ o.sized) (o.cut),
    )

log_all-IsOpen :
    (size : ℕ) (l : Logger) (chars : List ℕ)
    → 0 < size
    → IsOpen size l
    → (logged (log_all l chars) ≡ logged l ++ chars) × IsOpen size (log_all l chars)
unfolding log_all
log_all-IsOpen size l [] h o = (sym (append-nil (logged l)), o)
log_all-IsOpen size l (ch ∷ chars) h o =
    let s = logger_step size l ch h o in
    let r = log_all-IsOpen size (event_manager_logger l ch) chars h (s.1) in
    (r.0 ∙ ap (λ b. b ++ chars) (s.0) ∙ append_assoc (logged l) (ch ∷ []) chars, r.1)

-- Logging any characters into a buffer that is not empty never writes past its end; the messages that
-- the listener was given, joined, and what is still in the buffer are the characters in their order,
-- and no message is longer than the buffer.
pub log_all-logged :
    (size : ℕ) (chars : List ℕ)
    → 0 < size
    → (logged (log_all (register_logger size) chars) ≡ chars)
      × IsOpen size (log_all (register_logger size) chars)
unfolding register_logger
log_all-logged size chars h =
    let n : length (replicate size 0) ≡ size = length-replicate size 0 in
    log_all-IsOpen size (register_logger size) chars h
      (record { room = omega (arith, n, h); sized = n; cut = tt })
