-- ===== src/Http/Endpoint/Register.antt =====
-- Setting an endpoint up: its listeners, its fallback and its assets.
pub mod Laws
use mongoose_cpp.Prelude.{
  ℕ, suc, ◌||◌, ◌==◌, Bool, true, false, List, [], ◌∷◌, none, some, Bytes, if◌then◌else◌, length,
  ltb,
}
use mongoose_cpp.Table.{find, assign}
use mongoose_cpp.Table.Keys.{text_key}
use mongoose_cpp.Table.Order.{Order}
use mongoose_cpp.Http.Headers
use mongoose_cpp.Http.Headers.{Headers, Entry}
use mongoose_cpp.Http.Request.{Request}
use mongoose_cpp.Http.Response.{Action}
use mongoose_cpp.Http.Endpoint.State.{Endpoint, Asset, Listener, sync, async, AsyncAction}

abbrev pub is_capture : ℕ → Bool
is_capture c = (c == b'?' || c == b'*') || c == b'#'

unfoldable pub count_groups_loop : ℕ → Bytes → ℕ
count_groups_loop groups [] = groups
count_groups_loop groups (c ∷ path) =
    count_groups_loop (if is_capture c then suc groups else groups) path

unfoldable pub count_groups : Bytes → ℕ
unfolding count_groups_loop
count_groups path = count_groups_loop 0 path

unfoldable pub on_request : Endpoint → Bytes → (Request → List Action) → Endpoint
on_request e path callback = record e { listeners = assign text_key path listener e.listeners }
  where
    listener : Listener
    listener = record { groups = count_groups path; callback = sync callback }

unfoldable pub on_async_request : Endpoint → Bytes → (Request → List AsyncAction) → Endpoint
on_async_request e path callback = record e {
  listeners = assign text_key path listener e.listeners;
}
  where
    listener : Listener
    listener = record { groups = count_groups path; callback = async callback }

unfoldable pub on_fallback : Endpoint → (Request → List Action) → Endpoint
on_fallback e callback = record e {
  fallback = some (record { groups = 0; callback = sync callback });
}

unfoldable pub on_async_fallback : Endpoint → (Request → List AsyncAction) → Endpoint
on_async_fallback e callback = record e {
  fallback = some (record { groups = 0; callback = async callback });
}

-- `m_assets[path]`, which makes a default entry where there is none.
abbrev pub default_asset : Asset
default_asset = record { is_dir = false; path = []; mime_type = []; headers = [] }

unfoldable pub resource : Endpoint → Bytes → Asset
resource e path = elim (find text_key path e.assets) [ none ↦ default_asset | some a ↦ a ]

-- The overload with all four parameters; the shorter ones call it with an empty type and no headers.
unfoldable pub on_asset : Order Entry → Endpoint → Bytes → Bytes → Bytes → Headers → Endpoint
unfolding resource
on_asset o e path asset mime_type headers = record e {
  assets = assign text_key path changed e.assets;
}
  where
    changed : Asset
    changed = record (resource e path) {
      path = asset;
      mime_type = mime_type;
      headers = Headers.format o headers true 0;
    }

-- One pair of parameters of `on_assets`, and the recursion over the rest of the pack.
unfoldable pub on_assets_pair : Endpoint → Bytes → Bytes → Endpoint
unfolding resource
on_assets_pair e path assets = record e { assets = assign text_key path changed e.assets }
  where
    changed : Asset
    changed = record (resource e path) { is_dir = true; path = assets }

unfoldable pub on_assets : Endpoint → List (Bytes × Bytes) → Endpoint
unfolding on_assets_pair
on_assets e [] = e
on_assets e ((path, assets) ∷ args) = on_assets (on_assets_pair e path assets) args
