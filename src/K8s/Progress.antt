-- ===== src/K8s/Progress.antt =====
-- How far an instance of src/k8s/lifecycle.rs is from its end, and what is left of a failed one.
use steel_proxy.Common.{
  ℕ, nat_eq, nat_beq_iff, ◌≤◌, ◌<◌, Text, codes, Option, none, some, ◌≡◌, ◌≢◌, refl, ap, ◌∙◌,
  Result, ok, err, arith, Option-cases, inl, inr, ◌++◌,
}
use steel_proxy.Common.Map.{lookup}
use steel_proxy.Config.Types.{KubernetesConfig, JenkinsConfig}
use steel_proxy.External.{External}
use steel_proxy.World.{World}
use steel_proxy.K8s.Instance.{
  InstanceState, building, deploying, starting, ready, shutting_down, failed, PrInstance,
}
use steel_proxy.K8s.Instances.{remove_instance, update_instance_state}
use steel_proxy.K8s.Manager
use steel_proxy.K8s.Lifecycle
use steel_proxy.K8s.Machine.{
  Outcome, stays, Edge, build_runs, build_done, build_fails, deployed, deploy_fails, pod_starts,
  pod_ready, pod_timeout, serves, expires, cleaned, dropped, Overdue, shared,
}
use steel_proxy.K8s.Consistency.{lookup-update}
use steel_proxy.K8s.Consistency.Steps.{after, lookup-settle}
use steel_proxy.K8s.Follows.{Follows}
use steel_proxy.K8s.Follows.Rounds.{handle_instance-Follows}

-- The moves that an instance has left at most, from a state.
abbrev pub moves_from : InstanceState → ℕ
moves_from (building t url) = 5
moves_from (deploying tag) = 4
moves_from (starting d a port t) = 3
moves_from (ready d a port since until) = 2
moves_from (shutting_down d) = 1
moves_from (failed reason) = 1

abbrev pub moves_left : Option PrInstance → ℕ
moves_left none = 0
moves_left (some i) = moves_from i.state

Edge-down :
    {n : ℕ} {short : Text} {s : InstanceState} {o : Outcome} (i : PrInstance)
    → Edge n short s o
    → i.state ≡ s
    → (moves_left (after o (some i)) ≤ moves_from s)
      × (o ≢ stays → moves_left (after o (some i)) < moves_from s)
Edge-down i (build_runs t url) e = (rw e (omega arith), λ moves. absurd (moves refl))
Edge-down i (build_done t url) e = (omega arith, λ moves. omega arith)
Edge-down i (build_fails t url reason) e = (omega arith, λ moves. omega arith)
Edge-down i (deployed tag address port t) e = (omega arith, λ moves. omega arith)
Edge-down i (deploy_fails tag reason) e = (omega arith, λ moves. omega arith)
Edge-down i (pod_starts d a port t) e = (rw e (omega arith), λ moves. absurd (moves refl))
Edge-down i (pod_ready d a port t since until) e = (omega arith, λ moves. omega arith)
Edge-down i (pod_timeout d a port t) e = (omega arith, λ moves. omega arith)
Edge-down i (serves d a port since until) e = (rw e (omega arith), λ moves. absurd (moves refl))
Edge-down i (expires d a port since until) e = (omega arith, λ moves. omega arith)
Edge-down i (cleaned d) e = (omega arith, λ moves. omega arith)
Edge-down i (dropped reason) e = (omega arith, λ moves. omega arith)

module _ (X : External) (jenkins : JenkinsConfig) (config : KubernetesConfig) where
  pub own_entry :
      (n : ℕ) (i : PrInstance) (w : World X.E) (run : Result (Unit {0}) × World X.E) {due : Type 0}
      → (f : Follows due n i.commit_hash_short i.state (shared w) run)
      → lookup n w.instances ≡ some i
      → lookup n run.1.instances ≡ after f.outcome (some i)
  own_entry n i w run f there =
      ap (λ x. lookup n x.instances) f.effect
      ∙ lookup-settle n n (shared w) f.edge
      ∙ rw there (ground (arith, nat_beq_iff n n))

  -- The handler of an instance never takes it away from its end, which is at most five moves off,
  -- and takes it nearer if the clock shows that its state is over, whatever Kubernetes and Jenkins
  -- answer.
  pub handle_instance-progress :
      (n : ℕ) (i : PrInstance) (w : World X.E)
      → lookup n w.instances ≡ some i
      → (moves_left (lookup n (Lifecycle.handle_instance X jenkins config n i w).1.instances)
          ≤ moves_left (some i))
        × (Overdue jenkins i.state (X.now w.ext).0
            → moves_left (lookup n (Lifecycle.handle_instance X jenkins config n i w).1.instances)
              < moves_left (some i))
  handle_instance-progress n i w there = go (handle_instance-Follows X jenkins config n i w)
    where
      run : Result (Unit {0}) × World X.E
      run = Lifecycle.handle_instance X jenkins config n i w

      due : Type 0
      due = Overdue jenkins i.state (X.now w.ext).0

      go :
          Follows due n i.commit_hash_short i.state (shared w) run
          → (moves_left (lookup n run.1.instances) ≤ moves_left (some i))
            × (due → moves_left (lookup n run.1.instances) < moves_left (some i))
      go f =
          rw (own_entry n i w run f there)
            ((Edge-down i f.edge refl).0, λ over. (Edge-down i f.edge refl).1 (f.leaves over))

  update-ext :
      {E : Type 0} (n : ℕ) (s : InstanceState) (w : World E)
      → (update_instance_state n s w).ext ≡ w.ext
  unfolding update_instance_state
  update-ext n s w = elim (Option-cases (lookup n w.instances)) [
    | inl absent ↦ rw absent refl
    | inr (i, there) ↦ rw there refl
  ]

  abbrev pub service_failed : PrInstance → Text → PrInstance
  service_failed i e = record i { state = failed (codes "Service creation failed: " ++ e) }

  -- If a deployment is created and its service is not, the instance fails, and the next handler
  -- drops it without a call to Kubernetes: the deployment stays behind.
  pub deployment_left_behind :
      (n : ℕ) (tag name e : Text) (i : PrInstance) (w w1 w2 : World X.E)
      → Manager.create_deployment X config n tag w ≡ (ok name, w1)
      → Manager.create_service X config n w1 ≡ (err e, w2)
      → lookup n w2.instances ≡ some i
      → (lookup n (Lifecycle.handle_deploying X jenkins config n tag w).1.instances
          ≡ some (service_failed i e))
        × (Lifecycle.handle_instance X jenkins config n
              (service_failed i e)
              (Lifecycle.handle_deploying X jenkins config n tag w).1
            ≡ (ok tt, remove_instance n (Lifecycle.handle_deploying X jenkins config n tag w).1))
        × ((Lifecycle.handle_deploying X jenkins config n tag w).1.ext ≡ w2.ext)
  unfolding Lifecycle.handle_deploying Lifecycle.start_service Lifecycle.set_instance
      Lifecycle.handle_instance Lifecycle.handle_state steel_proxy.World.broadcast
  deployment_left_behind n tag name e i w w1 w2 made refused there =
      rw (made, refused)
        (lookup-update n n _ _ ∙ rw there (ground (arith, nat_beq_iff n n)), refl, update-ext n _ _)
