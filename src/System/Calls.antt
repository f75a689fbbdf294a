-- ===== src/System/Calls.antt =====
-- The calls of Kubernetes, Jenkins, GitHub and the database (src/k8s/mod.rs, src/jenkins/mod.rs,
-- src/github/mod.rs, src/db/models.rs), and what every task keeps of the shared state.
use steel_proxy.Common.{ℕ, Text}
use steel_proxy.Common.Walks.{Walks}
use steel_proxy.Config.Types.{KubernetesConfig, JenkinsConfig, GitHubConfig}
use steel_proxy.External.{External, Reply, KubeReply, done, api_error, other_error}
use steel_proxy.World.{query}
use steel_proxy.System.Steps.{Reaches, arrived, step, stores, forgets, query-Reaches, step_rules}
use steel_proxy.Db.Table.{Values}
use steel_proxy.Db.Table
use steel_proxy.Db.Queries
use steel_proxy.Jenkins
use steel_proxy.Github
use steel_proxy.K8s.Manager

module _ (X : External) where
  pub exists_with_commit-Reaches :
      (n : ℕ) (short : Text) → Walks Reaches (Queries.exists_with_commit X n short)
  unfolding Queries.exists_with_commit
  exists_with_commit-Reaches n short = query-Reaches X _ arrived

  pub get_active_builds-Reaches : Walks Reaches (Queries.get_active_builds X)
  unfolding Queries.get_active_builds
  get_active_builds-Reaches = query-Reaches X _ arrived

  stored-Reaches :
      (n : ℕ) (v : Values) (now : Text) (id : ℕ)
      → Walks Reaches (query X {A = Unit {0}} (λ t. (tt, Table.upsert now id n v t)))
  stored-Reaches n v now id = query-Reaches X _ (λ w. step w _ (stores w now id n v))

  pub upsert-Reaches : (n : ℕ) (v : Values) → Walks Reaches (Queries.upsert X n v)
  unfolding Queries.upsert
  upsert-Reaches n v = search (step_rules, stored-Reaches n v) depth 6

  pub delete-Reaches : (n : ℕ) → Walks Reaches (Queries.delete X n)
  unfolding Queries.delete
  delete-Reaches n = query-Reaches X _ (λ w. step w _ (forgets w n))

module _ (X : External) (config : KubernetesConfig) where
  client-Reaches : Walks Reaches (Manager.client X config)
  unfolding Manager.client
  client-Reaches = search step_rules

  wait_after_delete-Reaches :
      (r : KubeReply (Unit {0})) → Walks Reaches (Manager.wait_after_delete X config r)
  unfolding Manager.wait_after_delete
  wait_after_delete-Reaches (done a) = search step_rules
  wait_after_delete-Reaches (api_error code e) = search step_rules
  wait_after_delete-Reaches (other_error e) = search step_rules

  pub create_deployment-Reaches :
      (n : ℕ) (tag : Text) → Walks Reaches (Manager.create_deployment X config n tag)
  unfolding Manager.create_deployment
  create_deployment-Reaches n tag =
      search (step_rules, client-Reaches, wait_after_delete-Reaches) depth 12

  pub create_service-Reaches : (n : ℕ) → Walks Reaches (Manager.create_service X config n)
  unfolding Manager.create_service
  create_service-Reaches n = search (step_rules, client-Reaches) depth 12

  pub delete_instance-Reaches : (n : ℕ) → Walks Reaches (Manager.delete_instance X config n)
  unfolding Manager.delete_instance
  delete_instance-Reaches n = search (step_rules, client-Reaches) depth 12

  pub is_deployment_ready-Reaches :
      (name : Text) → Walks Reaches (Manager.is_deployment_ready X config name)
  unfolding Manager.is_deployment_ready
  is_deployment_ready-Reaches name = search (step_rules, client-Reaches) depth 12

  pub get_service_info-Reaches : (n : ℕ) → Walks Reaches (Manager.get_service_info X config n)
  unfolding Manager.get_service_info
  get_service_info-Reaches n = search (step_rules, client-Reaches) depth 12

module _ (X : External) (jenkins : JenkinsConfig) where
  pub get_build_url-Reaches : (url : Text) → Walks Reaches (Jenkins.get_build_url X jenkins url)
  unfolding Jenkins.get_build_url
  get_build_url-Reaches url = search step_rules depth 6

  pub get_build_status-Reaches :
      (url : Text) → Walks Reaches (Jenkins.get_build_status X jenkins url)
  unfolding Jenkins.get_build_status
  get_build_status-Reaches url = search step_rules depth 6

  pub trigger_build-Reaches :
      (n : ℕ) (short : Text) → Walks Reaches (Jenkins.trigger_build X jenkins n short)
  unfolding Jenkins.trigger_build
  trigger_build-Reaches n short = search step_rules depth 6

module _ (X : External) (head_sha : X.Json → Reply Text) (config : GitHubConfig) where
  pub get_pr_head_commit-Reaches :
      (n : ℕ) → Walks Reaches (Github.get_pr_head_commit X head_sha config n)
  unfolding Github.get_pr_head_commit
  get_pr_head_commit-Reaches n = search step_rules depth 6
