-- ===== src/K8s/Lifecycle.antt =====
-- src/k8s/lifecycle.rs: one function for each handler, and one round of `run_lifecycle_loop`.
-- What the source only logs is left out.
use steel_proxy.Common.{
  ℕ, ◌+◌, ◌-◌, ◌*◌, ◌/◌, ◌%◌, ◌^◌, Bool, Option, none, some, Text, codes, show, List, [], ◌∷◌, ◌++◌,
  ltb, leb, if◌then◌else◌,
}
use steel_proxy.Common.Exec.{Exec, pure, modify, try_catch, ◌>>=◌, ◌>>◌}
use steel_proxy.Config.Types.{KubernetesConfig, JenkinsConfig}
use steel_proxy.External.{External}
use steel_proxy.World.{World, outside, broadcast}
use steel_proxy.Db.Table.{Values}
use steel_proxy.Db.Queries
use steel_proxy.Jenkins
use steel_proxy.Jenkins.{BuildStatus, queued, running, success, not_found, failure}
use steel_proxy.K8s.Instance.{
  InstanceState, building, deploying, starting, ready, shutting_down, failed, PrInstance,
}
use steel_proxy.K8s.Instances.{
  image_tag, update_instance_state, remove_instance, get_instances_snapshot, register_backend,
  unregister_backend,
}
use steel_proxy.K8s.Manager.{
  from_secs, create_deployment, create_service, delete_instance, is_deployment_ready,
}

-- "§c[Proxy] PR #{pr_number}{rest}" and the like.
unfoldable pub notice : Text → ℕ → Text → Text
notice front pr_number rest = front ++ (codes "PR #" ++ (show pr_number ++ rest))

-- Instant::now() + Duration::from_secs(timeout_minutes * 60)
unfoldable pub shutdown_time : KubernetesConfig → ℕ → ℕ
shutdown_time config now = now + from_secs (config.instance_timeout_minutes * 60 % 2 ^ 64)

abbrev pub startup_timeout : ℕ
startup_timeout = from_secs 300

module _ (X : External) (jenkins : JenkinsConfig) (config : KubernetesConfig) where
  unfoldable pub set_instance : ℕ → InstanceState → Exec (World X.E) (Unit {0})
  set_instance pr_number state = modify (update_instance_state pr_number state)

  -- The match on the status of a build.
  unfoldable pub on_status : ℕ → Text → BuildStatus → Exec (World X.E) (Unit {0})
  on_status pr_number commit_hash_short success = do
    broadcast (notice (codes "§a[Proxy] ") pr_number (codes " build completed! Deploying..."))
    set_instance pr_number (deploying (image_tag pr_number commit_hash_short))
  on_status pr_number commit_hash_short (failure reason) = do
    broadcast (notice (codes "§c[Proxy] ") pr_number (codes " build failed: " ++ reason))
    set_instance pr_number (failed reason)
  on_status pr_number commit_hash_short running = pure tt
  on_status pr_number commit_hash_short queued = pure tt
  on_status pr_number commit_hash_short not_found =
      set_instance pr_number (failed (codes "Build not found"))

  unfoldable pub poll_build : ℕ → Text → Option Text → Exec (World X.E) (Unit {0})
  poll_build pr_number commit_hash_short none = pure tt
  poll_build pr_number commit_hash_short (some build_url) =
      try_catch (Jenkins.get_build_status X jenkins build_url)
        (on_status pr_number commit_hash_short) λ e. pure tt

  unfoldable pub poll_queue : ℕ → Text → Option Text → Exec (World X.E) (Unit {0})
  poll_queue pr_number commit_hash_short none = pure tt
  poll_queue pr_number commit_hash_short (some queue_url) =
      try_catch (Jenkins.get_build_url X jenkins queue_url) (poll_build pr_number commit_hash_short)
        λ e. pure tt

  unfoldable pub handle_building :
      ℕ → Text → (started_at : ℕ) → (queue_url : Option Text) → Exec (World X.E) (Unit {0})
  handle_building pr_number commit_hash_short started_at queue_url = do
    let timeout = Jenkins.build_timeout_secs jenkins
    now ← outside X.now
    if ltb (from_secs timeout) (now - started_at)
        then (do
          broadcast (
              notice (codes "§c[Proxy] ") pr_number
                (codes " build timed out after " ++ (show (timeout / 60) ++ codes " minutes")))
          set_instance pr_number (failed (codes "Build timeout")))
        else poll_queue pr_number commit_hash_short queue_url

  unfoldable pub start_service : ℕ → Text → Exec (World X.E) (Unit {0})
  start_service pr_number deployment_name =
      try_catch (create_service X config pr_number)
        (λ (endpoint : Text × ℕ). do
          now ← outside X.now
          set_instance pr_number (starting deployment_name endpoint.0 endpoint.1 now))
        λ e. do
          broadcast (
              codes "§c[Proxy] Failed to create service for PR #"
              ++ (show pr_number ++ (codes ": " ++ e)))
          set_instance pr_number (failed (codes "Service creation failed: " ++ e))

  unfoldable pub handle_deploying : ℕ → Text → Exec (World X.E) (Unit {0})
  handle_deploying pr_number tag =
      try_catch (create_deployment X config pr_number tag) (start_service pr_number) λ e. do
        broadcast (codes "§c[Proxy] Failed to deploy PR #" ++ (show pr_number ++ (codes ": " ++ e)))
        set_instance pr_number (failed (codes "Deployment failed: " ++ e))

  -- What `handle_starting` stores in the database.
  abbrev pub ready_build : ℕ → Text → Text → Values
  ready_build pr_number commit_hash commit_hash_short = record {
    commit_hash = commit_hash;
    commit_hash_short = commit_hash_short;
    image_tag = image_tag pr_number commit_hash_short;
    state = codes "Ready";
    state_data = none;
  }

  unfoldable pub become_ready :
      ℕ → Text → Text → Text → Text → (port : ℕ) → Exec (World X.E) (Unit {0})
  become_ready pr_number commit_hash commit_hash_short deployment_name address port = do
    modify (register_backend pr_number address port)
    timer_start ← outside X.now
    let shutdown_at = shutdown_time config timer_start
    ready_at ← outside X.now
    set_instance pr_number (ready deployment_name address port ready_at shutdown_at)
    try_catch (Queries.upsert X pr_number (ready_build pr_number commit_hash commit_hash_short))
        (λ (u : Unit {0}). pure tt) λ e. pure tt
    broadcast (
        notice (codes "§a[Proxy] ") pr_number
          (codes " is ready! Use §e/server pr-" ++ (show pr_number ++ codes "§a to connect.")))

  unfoldable pub handle_starting :
      ℕ → Text → Text → Text → Text → (port started_at : ℕ) → Exec (World X.E) (Unit {0})
  handle_starting pr_number commit_hash commit_hash_short deployment_name address port started_at =
      do
        now ← outside X.now
        if ltb startup_timeout (now - started_at)
            then (do
              broadcast (notice (codes "§c[Proxy] ") pr_number (codes " startup timed out"))
              set_instance pr_number (shutting_down deployment_name))
            else try_catch (is_deployment_ready X config deployment_name)
                (λ (available : Bool).
                  if available
                  then become_ready pr_number commit_hash commit_hash_short deployment_name address
                      port
                  else pure tt)
                λ e. pure tt

  unfoldable pub handle_ready : ℕ → Text → (shutdown_at : ℕ) → Exec (World X.E) (Unit {0})
  handle_ready pr_number deployment_name shutdown_at = do
    now ← outside X.now
    if leb shutdown_at now
        then (do
          broadcast
              (notice (codes "§e[Proxy] ") pr_number (codes " is shutting down (timeout expired)"))
          modify (unregister_backend pr_number)
          set_instance pr_number (shutting_down deployment_name))
        else pure tt

  unfoldable pub handle_shutting_down : ℕ → Text → Exec (World X.E) (Unit {0})
  handle_shutting_down pr_number deployment_name =
      try_catch (delete_instance X config pr_number)
        (λ (u : Unit {0}). modify (remove_instance pr_number))
        λ e. do
          broadcast
              (codes "§c[Proxy] Failed to clean up PR #" ++ (show pr_number ++ (codes ": " ++ e)))
          modify (remove_instance pr_number)

  -- The match on the state of an instance of the snapshot.
  unfoldable pub handle_state : ℕ → Text → Text → InstanceState → Exec (World X.E) (Unit {0})
  handle_state n hash short (building started_at build_url) =
      handle_building n short started_at build_url
  handle_state n hash short (deploying tag) = handle_deploying n tag
  handle_state n hash short (starting deployment_name address port started_at) =
      handle_starting n hash short deployment_name address port started_at
  handle_state n hash short (ready deployment_name address port ready_at shutdown_at) =
      handle_ready n deployment_name shutdown_at
  handle_state n hash short (shutting_down deployment_name) = handle_shutting_down n deployment_name
  handle_state n hash short (failed reason) = modify (remove_instance n)

  unfoldable pub handle_instance : ℕ → PrInstance → Exec (World X.E) (Unit {0})
  handle_instance n i = handle_state n i.commit_hash i.commit_hash_short i.state

  unfoldable pub handle_all : List (ℕ × PrInstance) → Exec (World X.E) (Unit {0})
  handle_all [] = pure tt
  handle_all ((n, i) ∷ rest) = do handle_instance n i; handle_all rest

  -- One round of the loop, after the ticker.
  unfoldable pub lifecycle_round : Exec (World X.E) (Unit {0})
  lifecycle_round w = handle_all (get_instances_snapshot w) w
