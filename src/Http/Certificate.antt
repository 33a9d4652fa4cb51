-- ===== src/Http/Certificate.antt =====
-- The peer's certificate as the remote context keeps it: struct tls_cert_info of
-- include/mgxx/tls.hpp, and the end of remote_context::setup in src/http/remote_context.cpp, which is
-- the same for both TLS libraries. The texts of the fields come from these libraries.
pub mod Slices
pub mod Tm
pub mod OpenSsl
pub mod Mbed
pub mod Agreement
pub mod Peer
use mongoose_cpp.Prelude.{
  ℕ, zero, suc, ◌+◌, ◌-◌, ◌/◌, ◌%◌, ◌==◌, List, [], ◌∷◌, ◌++◌, Bytes, length, take, drop,
  if◌then◌else◌, ltb,
}

-- The texts that were extracted.
pub record Fields : Type 0 where
  pub subject : Bytes
  pub issuer : Bytes
  pub serial : Bytes
  pub before : Bytes
  pub after : Bytes
  pub fingerprint : Bytes

-- A `std::string_view` into the buffer: where it begins, and its size.
pub record Slice : Type 0 where
  pub offset : ℕ
  pub size : ℕ

pub record TlsCertInfo : Type 0 where
  pub buffer : Bytes
  pub subject_name : Slice
  pub issuer_name : Slice
  pub serial_number : Slice
  pub not_before : Slice
  pub not_after : Slice
  pub fingerprint : Slice

-- The six calls of `append` on the empty buffer.
unfoldable pub append_fields : Fields → Bytes
append_fields f =
    (((((([] ++ f.subject) ++ f.issuer) ++ f.serial) ++ f.before) ++ f.after) ++ f.fingerprint)

unfoldable pub make_cert_info : Fields → TlsCertInfo
unfolding append_fields
make_cert_info f =
    let s = length f.subject in
    let i = length f.issuer in
    let n = length f.serial in
    let b = length f.before in
    let a = length f.after in
    record {
      buffer = append_fields f;
      subject_name = record { offset = 0; size = s };
      issuer_name = record { offset = s; size = i };
      serial_number = record { offset = s + i; size = n };
      not_before = record { offset = s + i + n; size = b };
      not_after = record { offset = s + i + n + b; size = a };
      fingerprint = record { offset = s + i + n + b + a; size = length f.fingerprint };
    }

-- What a view shows.
abbrev pub show_slice : Bytes → Slice → Bytes
show_slice buffer slice = take slice.size (drop slice.offset buffer)

-- `std::format("{:02X}", byte)`, for a byte.
unfoldable pub hex_digit : ℕ → ℕ
hex_digit d = if ltb d 10 then b'0' + d else b'A' + d - 10

unfoldable pub format_byte : ℕ → Bytes
unfolding hex_digit
format_byte byte = hex_digit (byte / 16 % 16) ∷ hex_digit (byte % 16) ∷ []

-- `std::erase(serial, ':')`.
unfoldable pub erase_colons : Bytes → Bytes
erase_colons [] = []
erase_colons (c ∷ s) = let rest = erase_colons s in if c == b':' then rest else c ∷ rest
