-- ===== src/K8s/Follows/Rounds.antt =====
-- The handlers of src/k8s/lifecycle.rs against the state machine, together.
use steel_proxy.Common.{ℕ, nat_eq, Text, refl}
use steel_proxy.Config.Types.{KubernetesConfig, JenkinsConfig}
use steel_proxy.External.{External}
use steel_proxy.World.{World}
use steel_proxy.K8s.Instance.{
  InstanceState, building, deploying, starting, ready, shutting_down, failed, PrInstance,
}
use steel_proxy.K8s.Instances.{remove_instance}
use steel_proxy.K8s.Lifecycle
use steel_proxy.K8s.Follows.{Follows}
use steel_proxy.K8s.Follows.Building.{handle_building-Follows}
use steel_proxy.K8s.Follows.Serving.{
  handle_deploying-Follows, handle_starting-Follows, handle_ready-Follows,
  handle_shutting_down-Follows,
}
use steel_proxy.K8s.Machine.{gone, dropped, shared, settle, Overdue}

module _ (X : External) (jenkins : JenkinsConfig) (config : KubernetesConfig) where
  handle_state-Follows :
      (n : ℕ) (hash short : Text) (s : InstanceState) (w : World X.E)
      → Follows
          (Overdue jenkins s (X.now w.ext).0)
          n
          short
          s
          (shared w)
          (Lifecycle.handle_state X jenkins config n hash short s w)
  unfolding Lifecycle.handle_state settle remove_instance
  handle_state-Follows n hash short (building t url) w =
      handle_building-Follows X jenkins config n short t url w
  handle_state-Follows n hash short (deploying tag) w =
      handle_deploying-Follows X jenkins config n short tag w
  handle_state-Follows n hash short (starting d a port t) w =
      handle_starting-Follows X jenkins config n hash short d a port t w
  handle_state-Follows n hash short (ready d a port since until) w =
      handle_ready-Follows X jenkins config n short d a port since until w
  handle_state-Follows n hash short (shutting_down d) w =
      handle_shutting_down-Follows X jenkins config n short d w
  handle_state-Follows n hash short (failed reason) w = record {
    completes = refl;
    outcome = gone;
    edge = dropped reason;
    leaves = λ _ e. cc;
    effect = refl;
  }

  -- The handler of an instance always completes, takes the instance along an edge of the state
  -- machine, and out of a state that the clock ends, and changes the instances, the backends and
  -- the clients' bookkeeping as the edge says.
  pub handle_instance-Follows :
      (n : ℕ) (i : PrInstance) (w : World X.E)
      → Follows
          (Overdue jenkins i.state (X.now w.ext).0)
          n
          i.commit_hash_short
          i.state
          (shared w)
          (Lifecycle.handle_instance X jenkins config n i w)
  unfolding Lifecycle.handle_instance
  handle_instance-Follows n i w = handle_state-Follows n i.commit_hash i.commit_hash_short i.state w
