-- ===== src/Proxy/Backends.antt =====
-- src/proxy.rs: `BackendRegistry`, the static backends of the configuration and the dynamic ones
-- of PR instances. `or_else` is the library's `or` on options, written out by clauses.
use steel_proxy.Common.{Bool, ◌||◌, Option, none, some, Text, text_eq, List, [], ◌++◌}
use steel_proxy.Common.Map.{HashMap, lookup, contains_key, insert, remove}
use steel_proxy.Config.Types.{BackendServer}

pub record BackendRegistry : Type 0 where
  pub static_backends : HashMap Text BackendServer
  pub dynamic_backends : HashMap Text BackendServer

unfoldable pub new : HashMap Text BackendServer → BackendRegistry
new static_backends = record { static_backends = static_backends; dynamic_backends = [] }

abbrev pub or_else {ℓ} : {A : Type ℓ} → Option A → Option A → Option A
or_else none other = other
or_else (some a) other = some a

unfoldable pub get : BackendRegistry → Text → Option BackendServer
get r name = or_else (lookup name r.dynamic_backends) (lookup name r.static_backends)

unfoldable pub contains : BackendRegistry → Text → Bool
contains r name = contains_key name r.dynamic_backends || contains_key name r.static_backends

-- `iter`: the entries, static ones first.
unfoldable pub entries : BackendRegistry → List (Text × BackendServer)
entries r = r.static_backends ++ r.dynamic_backends

unfoldable pub add_dynamic : Text → BackendServer → BackendRegistry → BackendRegistry
add_dynamic name backend r = record r { dynamic_backends = insert name backend r.dynamic_backends }

-- The backend that was removed, and the registry without it.
unfoldable pub remove_dynamic : Text → BackendRegistry → Option BackendServer × BackendRegistry
remove_dynamic name r =
    (lookup name r.dynamic_backends, record r { dynamic_backends = remove name r.dynamic_backends })
