-- ===== src/Proxy/Lookups.antt =====
-- The three ways to read the registry of src/proxy.rs: `get`, `contains` and `iter`.
use steel_proxy.Common.{
  Bool, ◌≡◌, refl, Text, text_eq, is_some, Option, none, some, [], ◌∷◌, ◌++◌, ◌||◌, arith,
}
use steel_proxy.Common.Map.{HashMap, contains_key, contains_key-lookup}
use steel_proxy.Config.Types.{BackendServer}
use steel_proxy.Proxy.Backends.{BackendRegistry, get, contains, entries, or_else}

or_else-is_some : (a b : Option BackendServer) → is_some (or_else a b) ≡ (is_some a || is_some b)
or_else-is_some none b = refl
or_else-is_some (some x) b = refl

or-swap : (a b : Bool) → (a || b) ≡ (b || a)
or-swap a b = ground arith

contains_key-append :
    (name : Text) (m k : HashMap Text BackendServer)
    → contains_key name (m ++ k) ≡ (contains_key name m || contains_key name k)
unfolding contains_key
contains_key-append name [] k = refl
contains_key-append name ((key, b) ∷ m) k = ground (arith, contains_key-append name m k)

-- `contains` tells of each name whether `get` finds a backend, and whether `iter` has an entry of
-- that name.
pub contains-get :
    (r : BackendRegistry) (name : Text)
    → (contains r name ≡ is_some (get r name)) × (contains r name ≡ contains_key name (entries r))
unfolding contains get entries
contains-get r name = (
  rw (contains_key-lookup, contains_key-lookup, or_else-is_some) refl,
  rw contains_key-append (or-swap (contains_key name r.dynamic_backends) _),
)
