-- ===== src/K8s/Recovery.antt =====
-- src/k8s/mod.rs: `recover_from_db`, run once before the lifecycle loop starts.
use steel_proxy.Common.{
  ℕ, ◌+◌, ◌%◌, ◌^◌, Bool, true, false, Option, none, some, Text, List, [], ◌∷◌,
}
use steel_proxy.Common.Exec.{Exec, pure, modify, try_catch, ◌>>=◌, ◌>>◌}
use steel_proxy.Config.Types.{KubernetesConfig}
use steel_proxy.External.{External}
use steel_proxy.World.{World, outside}
use steel_proxy.Db.Table.{PrBuild}
use steel_proxy.Db.Queries
use steel_proxy.K8s.Instance.{ready, PrInstance}
use steel_proxy.K8s.Instances.{insert_instance, register_backend}
use steel_proxy.K8s.Manager.{resource_name, is_deployment_ready, get_service_info}
use steel_proxy.K8s.Lifecycle.{shutdown_time}

-- `build.pr_number as u32`
unfoldable pub pr_number_of : PrBuild → ℕ
pr_number_of b = b.pr_number % 2 ^ 32

abbrev pub recovered_instance : ℕ → PrBuild → Text → (port since until : ℕ) → PrInstance
recovered_instance n build address port since until = record {
  pr_number = n;
  commit_hash = build.commit_hash;
  commit_hash_short = build.commit_hash_short;
  state = ready (resource_name n) address port since until;
}

module _ (X : External) (config : KubernetesConfig) where
  -- The row is dropped, whether or not the statement works.
  unfoldable pub forget_build : ℕ → Exec (World X.E) ℕ
  forget_build n = try_catch (Queries.delete X n) (λ (u : Unit {0}). pure 0) λ e. pure 0

  -- The number of instances that the build adds.
  unfoldable pub with_service : ℕ → PrBuild → Option (Text × ℕ) → Exec (World X.E) ℕ
  with_service n build (some (address, port)) = do
    timer_start ← outside X.now
    let shutdown_at = shutdown_time config timer_start
    ready_at ← outside X.now
    modify (insert_instance n (recovered_instance n build address port ready_at shutdown_at))
    modify (register_backend n address port)
    pure 1
  with_service n build none = forget_build n

  unfoldable pub if_ready : ℕ → PrBuild → Bool → Exec (World X.E) ℕ
  if_ready n build true =
      try_catch (get_service_info X config n) (with_service n build) λ e. forget_build n
  if_ready n build false = pure 0

  unfoldable pub recover_build : PrBuild → Exec (World X.E) ℕ
  recover_build build =
      let n = pr_number_of build in
      try_catch (is_deployment_ready X config (resource_name n)) (if_ready n build)
        λ e. forget_build n

  unfoldable pub recover_builds : List PrBuild → ℕ → Exec (World X.E) ℕ
  recover_builds [] recovered = pure recovered
  recover_builds (build ∷ rest) recovered = do
    more ← recover_build build
    recover_builds rest (recovered + more)

  unfoldable pub recover_from_db : Exec (World X.E) ℕ
  recover_from_db = do builds ← Queries.get_active_builds X; recover_builds builds 0
