-- ===== src/Mongoose.antt =====
-- The boundary to mongoose, a git submodule that the repository does not hold. What the library
-- asks of it is a log of calls; what it answers is an argument of the operation that asks.
use mongoose_cpp.Prelude.{ℕ, [], Bytes, Option, ℤ}

-- The fields of `mg_http_serve_opts` that the library fills in; `none` is a null pointer.
pub record ServeOpts : Type 0 where
  pub root_dir : Option Bytes
  pub extra_headers : Option Bytes
  pub mime_types : Option Bytes

-- A pointer to bytes: null, to memory of the user, or to the block of mongoose's allocator that has
-- this number.
pub data Pointer : Type 0 where
  null : Pointer
  user block : ℕ → Pointer

-- `mg_str`: where the bytes are, and the `len` bytes themselves.
pub record MgStr : Type 0 where
  pub buf : Pointer
  pub bytes : Bytes

abbrev pub null_str : MgStr
null_str = record { buf = null; bytes = [] }

pub record TlsOpts : Type 0 where
  pub ca : MgStr
  pub cert : MgStr
  pub key : MgStr

-- A call that acts on a connection, which is named by its `id`.
pub data MgCall : Type 0 where
  http_reply : (conn : ℕ) (code : ℤ) (headers body : Bytes) → MgCall
  send_bytes : (conn : ℕ) (bytes : Bytes) → MgCall
  http_write_chunk : (conn : ℕ) (bytes : Bytes) → MgCall
  http_serve_dir : (conn : ℕ) (opts : ServeOpts) → MgCall
  http_serve_file : (conn : ℕ) (path : Bytes) (opts : ServeOpts) → MgCall
  tls_init : (conn : ℕ) (opts : TlsOpts) → MgCall

-- What a call of `mg_wakeup` through the weak pointer to the manager meets: the manager is gone,
-- the call returns false, or it returns true and the message is on its way to the event loop.
pub data Wakeup : Type 0 where
  gone refused posted : Wakeup

-- The message of a wake-up: the connection, and the request number that is sent along.
abbrev pub Signal : Type 0
Signal = ℕ × ℕ

-- What a library that cannot be used as it is meant to does: undefined behaviour.
pub data Fault : Type 0 where
  bad_cast null_deref overrun : Fault

pub data Outcome {ℓ} (A : Type ℓ) : Type ℓ where
  ok : A → Outcome A
  fault : Fault → Outcome A

infixl 5 ◌>>=◌
abbrev pub ◌>>=◌ {ℓ κ} : {A : Type ℓ} {B : Type κ} → Outcome A → (A → Outcome B) → Outcome B
ok a >>= f = f a
fault e >>= f = fault e
