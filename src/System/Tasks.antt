-- ===== src/System/Tasks.antt =====
-- The lifecycle loop and the recovery (src/k8s/lifecycle.rs, src/k8s/mod.rs), and what every task
-- keeps of the shared state.
use steel_proxy.Common.{ℕ, Text, Option, none, some, List, [], ◌∷◌, Bool, true, false, nat_eq}
use steel_proxy.Common.Walks.{Walks, Walks-bind, Walks-pure}
use steel_proxy.Config.Types.{KubernetesConfig, JenkinsConfig}
use steel_proxy.External.{External}
use steel_proxy.System.Steps.{Reaches, Reaches-Preorder, update-Reaches, remove-Reaches, step_rules}
use steel_proxy.Db.Table.{PrBuild}
use steel_proxy.Jenkins.{BuildStatus, queued, running, success, not_found, failure}
use steel_proxy.K8s.Instance.{
  InstanceState, building, deploying, starting, ready, shutting_down, failed, PrInstance,
}
use steel_proxy.K8s.Instances.{get_instances_snapshot}
use steel_proxy.K8s.Lifecycle
use steel_proxy.K8s.Recovery
use steel_proxy.System.Calls.{
  get_active_builds-Reaches, upsert-Reaches, delete-Reaches, create_deployment-Reaches,
  create_service-Reaches, delete_instance-Reaches, is_deployment_ready-Reaches,
  get_service_info-Reaches, get_build_url-Reaches, get_build_status-Reaches,
}

module _ (X : External) (jenkins : JenkinsConfig) (config : KubernetesConfig) where
  set_instance-Reaches :
      (n : ℕ) (s : InstanceState) → Walks Reaches (Lifecycle.set_instance X jenkins config n s)
  unfolding Lifecycle.set_instance
  set_instance-Reaches n s = update-Reaches n s

  on_status-Reaches :
      (n : ℕ) (short : Text) (s : BuildStatus)
      → Walks Reaches (Lifecycle.on_status X jenkins config n short s)
  unfolding Lifecycle.on_status
  on_status-Reaches n short success = search (step_rules, set_instance-Reaches) depth 6
  on_status-Reaches n short (failure reason) = search (step_rules, set_instance-Reaches) depth 6
  on_status-Reaches n short running = search step_rules
  on_status-Reaches n short queued = search step_rules
  on_status-Reaches n short not_found = set_instance-Reaches n _

  poll_build-Reaches :
      (n : ℕ) (short : Text) (url : Option Text)
      → Walks Reaches (Lifecycle.poll_build X jenkins config n short url)
  unfolding Lifecycle.poll_build
  poll_build-Reaches n short none = search step_rules
  poll_build-Reaches n short (some url) =
      search (step_rules, on_status-Reaches, get_build_status-Reaches) depth 6

  poll_queue-Reaches :
      (n : ℕ) (short : Text) (url : Option Text)
      → Walks Reaches (Lifecycle.poll_queue X jenkins config n short url)
  unfolding Lifecycle.poll_queue
  poll_queue-Reaches n short none = search step_rules
  poll_queue-Reaches n short (some url) =
      search (step_rules, poll_build-Reaches, get_build_url-Reaches) depth 6

  start_service-Reaches :
      (n : ℕ) (name : Text) → Walks Reaches (Lifecycle.start_service X jenkins config n name)
  unfolding Lifecycle.start_service
  start_service-Reaches n name =
      search (step_rules, set_instance-Reaches, create_service-Reaches) depth 8

  become_ready-Reaches :
      (n : ℕ) (hash short name address : Text) (port : ℕ)
      → Walks Reaches (Lifecycle.become_ready X jenkins config n hash short name address port)
  unfolding Lifecycle.become_ready
  become_ready-Reaches n hash short name address port =
      search (step_rules, set_instance-Reaches, upsert-Reaches) depth 12

  handle_state-Reaches :
      (n : ℕ) (hash short : Text) (s : InstanceState)
      → Walks Reaches (Lifecycle.handle_state X jenkins config n hash short s)
  unfolding Lifecycle.handle_state Lifecycle.handle_building Lifecycle.handle_deploying
      Lifecycle.handle_starting Lifecycle.handle_ready Lifecycle.handle_shutting_down
  handle_state-Reaches n hash short (building t url) =
      search (step_rules, set_instance-Reaches, poll_queue-Reaches) depth 8
  handle_state-Reaches n hash short (deploying tag) =
      search (step_rules, set_instance-Reaches, create_deployment-Reaches, start_service-Reaches)
        depth 8
  handle_state-Reaches n hash short (starting d a port t) =
      search (step_rules, set_instance-Reaches, is_deployment_ready-Reaches, become_ready-Reaches)
        depth 8
  handle_state-Reaches n hash short (ready d a port since until) =
      search (step_rules, set_instance-Reaches) depth 8
  handle_state-Reaches n hash short (shutting_down d) =
      search (step_rules, delete_instance-Reaches) depth 8
  handle_state-Reaches n hash short (failed reason) = remove-Reaches n

  handle_all-Reaches :
      (snapshot : List (ℕ × PrInstance))
      → Walks Reaches (Lifecycle.handle_all X jenkins config snapshot)
  unfolding Lifecycle.handle_all Lifecycle.handle_instance
  handle_all-Reaches [] = Walks-pure Reaches-Preorder tt
  handle_all-Reaches ((n, i) ∷ rest) =
      Walks-bind Reaches-Preorder _ _
        (handle_state-Reaches n i.commit_hash i.commit_hash_short i.state)
        λ _. handle_all-Reaches rest

  pub lifecycle_round-Reaches : Walks Reaches (Lifecycle.lifecycle_round X jenkins config)
  unfolding Lifecycle.lifecycle_round
  lifecycle_round-Reaches = record {
    at = λ w. (handle_all-Reaches (get_instances_snapshot w)).at w;
  }

module _ (X : External) (config : KubernetesConfig) where
  forget_build-Reaches : (n : ℕ) → Walks Reaches (Recovery.forget_build X config n)
  unfolding Recovery.forget_build
  forget_build-Reaches n = search (step_rules, delete-Reaches) depth 6

  with_service-Reaches :
      (n : ℕ) (b : PrBuild) (o : Option (Text × ℕ))
      → Walks Reaches (Recovery.with_service X config n b o)
  unfolding Recovery.with_service
  with_service-Reaches n b none = forget_build-Reaches n
  with_service-Reaches n b (some (address, port)) = search step_rules depth 12

  if_ready-Reaches :
      (n : ℕ) (b : PrBuild) (available : Bool)
      → Walks Reaches (Recovery.if_ready X config n b available)
  unfolding Recovery.if_ready
  if_ready-Reaches n b true =
      search (step_rules, get_service_info-Reaches, with_service-Reaches, forget_build-Reaches)
        depth 6
  if_ready-Reaches n b false = search step_rules

  recover_build-Reaches : (b : PrBuild) → Walks Reaches (Recovery.recover_build X config b)
  unfolding Recovery.recover_build
  recover_build-Reaches b =
      search (step_rules, is_deployment_ready-Reaches, if_ready-Reaches, forget_build-Reaches) depth
        6

  recover_builds-Reaches :
      (builds : List PrBuild) (n : ℕ) → Walks Reaches (Recovery.recover_builds X config builds n)
  unfolding Recovery.recover_builds
  recover_builds-Reaches [] n = Walks-pure Reaches-Preorder n
  recover_builds-Reaches (b ∷ rest) n =
      Walks-bind Reaches-Preorder _ _ (recover_build-Reaches b)
        λ more. recover_builds-Reaches rest _

  pub recover_from_db-Reaches : Walks Reaches (Recovery.recover_from_db X config)
  unfolding Recovery.recover_from_db
  recover_from_db-Reaches =
      search (step_rules, get_active_builds-Reaches, recover_builds-Reaches) depth 6
