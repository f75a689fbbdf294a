-- ===== src/Proxy/Server.antt =====
-- src/proxy.rs: `ProxyServer`: pending switches, client numbers, and the start of a PR instance.
use steel_proxy.Common.{
  ℕ, nat_eq, ◌+◌, ◌%◌, ◌^◌, Option, none, some, Text, codes, show, [], ◌++◌, Result, ok, err,
  if◌then◌else◌,
}
use steel_proxy.Common.Exec.{Exec, pure, fail, lift, gets, ◌>>=◌, ◌>>◌}
use steel_proxy.Common.Map.{lookup, insert, remove}
use steel_proxy.Config.Types.{ProxyConfig, JenkinsConfig, GitHubConfig}
use steel_proxy.External.{External, Reply}
use steel_proxy.World.{World, broadcast}
use steel_proxy.Db.Queries
use steel_proxy.Db.Table.{Table}
use steel_proxy.Jenkins.{trigger_build}
use steel_proxy.Github.{get_pr_head_commit}
use steel_proxy.Proxy.Backends
use steel_proxy.Proxy.Backends.{contains}
use steel_proxy.K8s.Instances.{
  backend_name, has_instance, create_building_instance, create_deploying_instance,
}

-- `HashMap::remove` on the pending switches: the entry is used up.
unfoldable pub get_target_server : {E : Type 0} → ℕ → World E → Option Text × World E
get_target_server uuid w =
    (lookup uuid w.pending_switches, record w { pending_switches = remove uuid w.pending_switches })

unfoldable pub set_target_server : {E : Type 0} → ℕ → Text → World E → World E
set_target_server uuid server w = record w {
  pending_switches = insert uuid server w.pending_switches;
}

-- The number of a new connection; a u64 wraps in a release build.
unfoldable pub next_client : {E : Type 0} → World E → ℕ × World E
next_client w = let id = (w.next_client_id + 1) % 2 ^ 64 in (id, record w { next_client_id = id })

abbrev pub required {ℓ} : {A : Type ℓ} → Text → Option A → Result A
required e none = err e
required e (some a) = ok a

-- `X` is the world outside, `head_sha` serde's reading of a pull request.
module _ (X : External) (head_sha : X.Json → Reply Text) (config : ProxyConfig) where
  -- The checks before the first `await` on something outside.
  unfoldable pub check_free : ℕ → Exec (World X.E) (Unit {0})
  check_free pr_number = do
    known ← gets (has_instance pr_number)
    taken ← gets (λ w. contains w.backends (backend_name pr_number))
    if known
        then fail (codes "PR #" ++ (show pr_number ++ codes " is already being built or running"))
        else if taken
        then fail (codes "PR #" ++ (show pr_number ++ codes " instance already exists"))
        else pure tt

  unfoldable pub deploy_existing : ℕ → Text → Text → Exec (World X.E) (Unit {0})
  deploy_existing pr_number commit_hash commit_hash_short = do
    broadcast (
        codes "§a[Proxy] PR #"
        ++ (show pr_number
            ++ (codes " already built for commit "
                ++ (commit_hash_short ++ codes ". Deploying..."))))
    create_deploying_instance X pr_number commit_hash commit_hash_short

  unfoldable pub queue_build : JenkinsConfig → ℕ → Text → Text → Exec (World X.E) (Unit {0})
  queue_build jenkins pr_number commit_hash commit_hash_short = do
    queue_url ← trigger_build X jenkins pr_number commit_hash_short
    create_building_instance X pr_number commit_hash commit_hash_short queue_url
    broadcast (
        codes "§a[Proxy] PR #"
        ++ (show pr_number ++ codes " build queued. You will be notified when it's ready."))

  unfoldable pub build_new : JenkinsConfig → ℕ → Text → Text → Exec (World X.E) (Unit {0})
  build_new jenkins pr_number commit_hash commit_hash_short = do
    broadcast (
        codes "§e[Proxy] Building PR #"
        ++ (show pr_number ++ (codes " (commit " ++ (commit_hash_short ++ codes ")..."))))
    queue_build jenkins pr_number commit_hash commit_hash_short

  -- With the commit at hand: deploy an image that exists, or build one.
  unfoldable pub launch_commit : JenkinsConfig → ℕ → Text × Text → Exec (World X.E) (Unit {0})
  launch_commit jenkins pr_number (commit_hash, commit_hash_short) = do
    existing ← Queries.exists_with_commit X pr_number commit_hash_short
    if existing
        then deploy_existing pr_number commit_hash commit_hash_short
        else build_new jenkins pr_number commit_hash commit_hash_short

  unfoldable pub fetch_commit : GitHubConfig → JenkinsConfig → ℕ → Exec (World X.E) (Unit {0})
  fetch_commit github jenkins pr_number = do
    commit ← get_pr_head_commit X head_sha github pr_number
    launch_commit jenkins pr_number commit

  -- What follows the checks.
  unfoldable pub launch : GitHubConfig → JenkinsConfig → ℕ → Exec (World X.E) (Unit {0})
  launch github jenkins pr_number = do
    broadcast (codes "§7[Proxy] Fetching PR #" ++ (show pr_number ++ codes " info from GitHub..."))
    fetch_commit github jenkins pr_number

  unfoldable pub start_pr : ℕ → Exec (World X.E) (Unit {0})
  start_pr pr_number = do
    github ← lift (required (codes "GitHub not configured") config.github)
    jenkins ← lift (required (codes "Jenkins not configured") config.jenkins)
    k8s ← lift (required (codes "Kubernetes not configured") config.kubernetes)
    check_free pr_number
    launch github jenkins pr_number

  -- `ProxyServer::new`, with the database of its pool, in a world outside. The table of instances
  -- is that of the new `K8sManager`.
  unfoldable pub start : Table → X.E → World X.E
  start builds e = record {
    backends = Backends.new config.backends;
    next_client_id = 0;
    pending_switches = [];
    broadcasts = [];
    instances = [];
    builds = builds;
    ext = e;
  }
