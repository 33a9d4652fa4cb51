-- ===== src/Http/Headers.antt =====
-- The header map: class headers of include/mgxx/http/headers.hpp and src/http/headers.cpp.
-- Its order of iteration, which the language leaves open, is an argument of `format`.
pub mod Key
pub mod Laws
pub mod Format
use mongoose_cpp.Prelude.{
  ◌≡◌, Bool, true, false, not, ◌&&◌, ℕ, List, [], ◌∷◌, ◌++◌, Option, none, some, Bytes, codes,
  length, if◌then◌else◌,
}
use mongoose_cpp.Table.{Table, find, assign, erase}
use mongoose_cpp.Table.Order.{Order}
use Key.{name_key, is_equal}

abbrev pub Entry : Type 0
Entry = Bytes × Bytes

abbrev pub Headers : Type 0
Headers = Table Bytes Bytes

unfoldable pub size : Headers → ℕ
size h = length h

unfoldable pub get : Headers → Bytes → Option Bytes
unfolding find name_key is_equal
get h name = find name_key name h

-- `get_view` differs from `get` in that it copies nothing.
unfoldable pub get_view : Headers → Bytes → Option Bytes
unfolding find name_key is_equal
get_view h name = find name_key name h

abbrev pub is_some {ℓ} : {A : Type ℓ} → Option A → Bool
is_some none = false
is_some (some a) = true

unfoldable pub has : Headers → Bytes → Bool
unfolding find name_key is_equal
has h name = is_some (find name_key name h)

unfoldable pub set : Headers → Bytes → Bytes → Headers
unfolding assign name_key is_equal
set h name value = assign name_key name value h

unfoldable pub remove : Headers → Bytes → Headers
unfolding find erase name_key is_equal
remove h name = elim (find name_key name h) [ none ↦ h | some value ↦ erase name_key name h ]

unfoldable pub clear : Headers → Headers
clear h = []

abbrev pub default_line : Bytes
default_line = codes "Content-Type: text/plain" ++ 13 ∷ 10 ∷ []

unfoldable pub format_loop : Bytes → List Entry → Bytes
format_loop headers [] = headers
format_loop headers ((name, value) ∷ entries) =
    format_loop ((((headers ++ name) ++ codes ": ") ++ value) ++ 13 ∷ 10 ∷ []) entries

abbrev pub is_empty : Bytes → Bool
is_empty [] = true
is_empty (c ∷ s) = false

-- `capacity` only reserves memory.
unfoldable pub format : Order Entry → Headers → Bool → ℕ → Bytes
unfolding format_loop
format order h empty capacity =
    let headers = format_loop [] (order.visit h) in
    if not empty && is_empty headers then headers ++ default_line else headers
