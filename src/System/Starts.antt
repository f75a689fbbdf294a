-- ===== src/System/Starts.antt =====
-- `start_pr` of src/proxy.rs as a path of steps.
use steel_proxy.Common.{ℕ, Text}
use steel_proxy.Common.Walks.{Walks}
use steel_proxy.Config.Types.{ProxyConfig, JenkinsConfig, GitHubConfig}
use steel_proxy.External.{External, Reply}
use steel_proxy.K8s.Instances.{create_building_instance, create_deploying_instance}
use steel_proxy.Proxy.Server
use steel_proxy.System.Steps.{Reaches, insert-Reaches, step_rules}
use steel_proxy.System.Calls.{
  exists_with_commit-Reaches, trigger_build-Reaches, get_pr_head_commit-Reaches,
}

module _ (X : External) (head_sha : X.Json → Reply Text) (config : ProxyConfig) where
  create_deploying-Reaches :
      (n : ℕ) (hash short : Text) → Walks Reaches (create_deploying_instance X n hash short)
  unfolding create_deploying_instance
  create_deploying-Reaches n hash short = insert-Reaches n _

  create_building-Reaches :
      (n : ℕ) (hash short url : Text) → Walks Reaches (create_building_instance X n hash short url)
  unfolding create_building_instance
  create_building-Reaches n hash short url = search step_rules depth 6

  deploy_existing-Reaches :
      (n : ℕ) (hash short : Text)
      → Walks Reaches (Server.deploy_existing X head_sha config n hash short)
  unfolding Server.deploy_existing
  deploy_existing-Reaches n hash short = search (step_rules, create_deploying-Reaches) depth 6

  build_new-Reaches :
      (jenkins : JenkinsConfig) (n : ℕ) (hash short : Text)
      → Walks Reaches (Server.build_new X head_sha config jenkins n hash short)
  unfolding Server.build_new Server.queue_build
  build_new-Reaches jenkins n hash short =
      search (step_rules, create_building-Reaches, trigger_build-Reaches) depth 8

  launch-Reaches :
      (github : GitHubConfig) (jenkins : JenkinsConfig) (n : ℕ)
      → Walks Reaches (Server.launch X head_sha config github jenkins n)
  unfolding Server.launch Server.fetch_commit Server.launch_commit
  launch-Reaches github jenkins n =
      search
        (
          step_rules, deploy_existing-Reaches, build_new-Reaches, exists_with_commit-Reaches,
          get_pr_head_commit-Reaches,
        )
        depth 10

  check_free-Reaches : (n : ℕ) → Walks Reaches (Server.check_free X head_sha config n)
  unfolding Server.check_free
  check_free-Reaches n = search step_rules depth 8

  pub start_pr-Reaches : (n : ℕ) → Walks Reaches (Server.start_pr X head_sha config n)
  unfolding Server.start_pr
  start_pr-Reaches n = search (step_rules, check_free-Reaches, launch-Reaches) depth 8
