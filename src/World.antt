-- ===== src/World.antt =====
-- The state that the tasks of the program share: the fields of `ProxyServer` (src/proxy.rs) and
-- `K8sManager` (src/k8s/mod.rs) that change, the database, and the world outside.
pub mod Quiet
use steel_proxy.Common.{ℕ, Text, Option, none, some, List, [], ◌∷◌, ◌++◌, Result, ok, err, context}
use steel_proxy.Common.Map.{HashMap}
use steel_proxy.Common.Exec.{Exec}
use steel_proxy.External.{External, Reply, to_result}
use steel_proxy.Proxy.Backends.{BackendRegistry}
use steel_proxy.Db.Table.{Table}
use steel_proxy.K8s.Instance.{PrInstance}

pub record World (E : Type 0) : Type 0 where
  pub backends : BackendRegistry
  pub next_client_id : ℕ  -- u64
  pub pending_switches : HashMap ℕ Text  -- by UUID
  pub broadcasts : List Text  -- what was sent to `broadcast_tx`, oldest first
  pub instances : HashMap ℕ PrInstance  -- by PR number
  pub builds : Table
  pub ext : E

-- A call of something outside that cannot fail.
unfoldable pub outside {ℓ} : {E : Type 0} {A : Type ℓ} → (E → A × E) → Exec (World E) A
outside call w = let (a, e) = call w.ext in (ok a, record w { ext = e })

-- One that can, under `?` or `match`.
unfoldable pub outside_fallible {ℓ} :
    {E : Type 0} {A : Type ℓ} → (E → Reply A × E) → Exec (World E) A
outside_fallible call w = let (r, e) = call w.ext in (to_result r, record w { ext = e })

-- The same with `.context(c)`.
unfoldable pub outside_context {ℓ} :
    {E : Type 0} {A : Type ℓ} → Text → (E → Reply A × E) → Exec (World E) A
outside_context c call w =
    let (r, e) = call w.ext in (context c (to_result r), record w { ext = e })

abbrev pub query_result {ℓ} :
    {E : Type 0} {A : Type ℓ} → (Table → A × Table) → Option Text → Exec (World E) A
query_result f none w = let (a, t) = f w.builds in (ok a, record w { builds = t })
query_result f (some e) w = (err e, w)

-- One SQL statement: it fails and changes nothing, or it is carried out.
unfoldable pub query {ℓ} : (X : External) {A : Type ℓ} → (Table → A × Table) → Exec (World X.E) A
query X f w =
    let (failure, e) = X.query_error w.ext in query_result f failure (record w { ext = e })

-- src/proxy.rs: `broadcast`. No receiver is no error.
unfoldable pub broadcast : {E : Type 0} → Text → Exec (World E) (Unit {0})
broadcast message w = (ok tt, record w { broadcasts = w.broadcasts ++ message ∷ [] })
