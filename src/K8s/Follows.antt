-- ===== src/K8s/Follows.antt =====
-- What it means that a handler of src/k8s/lifecycle.rs follows the state machine, and the lemmas
-- that all share.
pub mod Building
pub mod Serving
pub mod Rounds
use steel_proxy.Common.{
  ℕ, nat_eq, ◌-◌, Text, Option, none, some, ◌≡◌, ◌≢◌, refl, sym, Bool, true, false, Bool-cases,
  Option-cases, Result, ok, err, ◌⊎◌, inl, inr, arith, ltb, leb, ap, ◌∙◌, if◌then◌else◌,
}
use steel_proxy.Common.Exec.{Exec, pure, gets, modify, try_catch, ◌>>=◌, ◌>>◌}
use steel_proxy.Common.Map.{lookup}
use steel_proxy.Config.Types.{KubernetesConfig, JenkinsConfig}
use steel_proxy.External.{External}
use steel_proxy.World.{World, outside, broadcast, query}
use steel_proxy.World.Quiet.{Quiet, Quiet-cases}
use steel_proxy.Db.Table.{Values}
use steel_proxy.Db.Queries
use steel_proxy.Jenkins
use steel_proxy.Jenkins.{BuildStatus, queued, running, success, not_found, failure}
use steel_proxy.K8s.Instance.{
  InstanceState, building, deploying, starting, ready, shutting_down, failed, PrInstance,
}
use steel_proxy.K8s.Instances.{
  update_instance_state, insert_instance, remove_instance, register_backend, unregister_backend,
}
use steel_proxy.K8s.Manager
use steel_proxy.K8s.Manager.{from_secs, resource_name}
use steel_proxy.K8s.Quiet.{
  create_deployment-Quiet, create_service-Quiet, delete_instance-Quiet, is_deployment_ready-Quiet,
  get_build_url-Quiet, get_build_status-Quiet,
}
use steel_proxy.K8s.Lifecycle
use steel_proxy.K8s.Machine.{
  Outcome, stays, goes, gone, Edge, build_runs, build_done, build_fails, deployed, deploy_fails,
  pod_starts, pod_ready, pod_timeout, serves, expires, cleaned, dropped, shared, settle, enter,
  leave,
}

-- A handler's run from `w` completes, takes an edge, which leaves the state if that is due, and
-- changes what the edge says.
pub record Follows (due : Type 0) (n : ℕ) (short : Text) (s : InstanceState) (w : World (Unit {0}))
    {E : Type 0} (run : Result (Unit {0}) × World E) : Type 0 where
  pub completes : run.0 ≡ ok tt
  pub outcome : Outcome
  pub edge : Edge n short s outcome
  pub leaves : due → outcome ≢ stays
  pub effect : shared run.1 ≡ settle n s outcome w

pub shared-update :
    {E : Type 0} (n : ℕ) (s : InstanceState) (w : World E)
    → shared (update_instance_state n s w) ≡ update_instance_state n s (shared w)
unfolding update_instance_state
shared-update n s w = elim (Option-cases (lookup n w.instances)) [
  | inl none_there ↦ rw none_there
  | inr (i, there) ↦ rw there
]

pub shared-register :
    {E : Type 0} (n : ℕ) (address : Text) (port : ℕ) (w : World E)
    → shared (register_backend n address port w) ≡ register_backend n address port (shared w)
unfolding register_backend
shared-register n address port w = refl

module _ (X : External) (jenkins : JenkinsConfig) (config : KubernetesConfig) where
  -- Moving to a state that is not `ready`, from one that is not.
  pub set_instance-Follows :
      (due : Type 0) (n : ℕ) (short : Text) (s s' : InstanceState) (w : World X.E)
      → Edge n short s (goes s')
      → settle n s (goes s') (shared w) ≡ update_instance_state n s' (shared w)
      → Follows due n short s (shared w) (Lifecycle.set_instance X jenkins config n s' w)
  unfolding Lifecycle.set_instance
  set_instance-Follows due n short s s' w edge plain = record {
    completes = refl;
    outcome = goes s';
    edge = edge;
    leaves = λ _ e. cc;
    effect = shared-update n s' w ∙ sym plain;
  }
