-- ===== src/K8s/Chances.antt =====
-- How often an instance of src/k8s/lifecycle.rs can be handled when its state is over.
use steel_proxy.Common.{
  ℕ, nat_eq, nat_beq_iff, nat_beq, ◌-◌, ◌≤◌, ◌<◌, ◌≡◌, ◌≢◌, refl, sym, subst, ap, ◌∙◌, Option, none,
  some, true, arith, Text, ltb,
}
use steel_proxy.Common.Map.{lookup}
use steel_proxy.Config.Types.{KubernetesConfig, JenkinsConfig}
use steel_proxy.External.{External}
use steel_proxy.World.{World, outside, broadcast}
use steel_proxy.Jenkins
use steel_proxy.K8s.Instance.{
  PrInstance, InstanceState, building, deploying, starting, ready, shutting_down, failed,
}
use steel_proxy.K8s.Lifecycle
use steel_proxy.K8s.Lifecycle.{handle_instance}
use steel_proxy.K8s.Manager.{from_secs}
use steel_proxy.K8s.Machine.{
  Outcome, stays, Edge, build_runs, build_done, build_fails, deployed, deploy_fails, pod_starts,
  pod_ready, pod_timeout, serves, expires, cleaned, dropped, Overdue, shared,
}
use steel_proxy.K8s.Consistency.{lookup-update}
use steel_proxy.K8s.Consistency.Steps.{after}
use steel_proxy.K8s.Follows.{Follows}
use steel_proxy.K8s.Follows.Rounds.{handle_instance-Follows}
use steel_proxy.K8s.Progress.{own_entry}

-- How often a state, and those after it, can be handled at a time at which they are over.
abbrev pub chances_of : InstanceState → ℕ
chances_of (building t url) = 3
chances_of (deploying tag) = 3
chances_of (starting d a port t) = 2
chances_of (ready d a port since until) = 2
chances_of (shutting_down d) = 1
chances_of (failed reason) = 1

abbrev pub chances : Option PrInstance → ℕ
chances none = 0
chances (some i) = chances_of i.state

-- The states that end in another way when their time is over than when their work is done.
abbrev IsWork : InstanceState → Type 0
IsWork (building t url) = Unit
IsWork (starting d a port t) = Unit
IsWork (deploying tag) = ⊥
IsWork (ready d a port since until) = ⊥
IsWork (shutting_down d) = ⊥
IsWork (failed reason) = ⊥

Edge-chances :
    {n : ℕ} {short : Text} {s : InstanceState} {o : Outcome} (i : PrInstance)
    → Edge n short s o
    → i.state ≡ s
    → (chances (after o (some i)) ≤ chances_of s)
      × (¬ IsWork s → o ≢ stays → chances (after o (some i)) < chances_of s)
Edge-chances i (build_runs t url) e = (rw e (omega arith), λ calm moves. absurd (moves refl))
Edge-chances i (build_done t url) e = (omega arith, λ calm moves. absurd (calm tt))
Edge-chances i (build_fails t url reason) e = (omega arith, λ calm moves. omega arith)
Edge-chances i (deployed tag address port t) e = (omega arith, λ calm moves. omega arith)
Edge-chances i (deploy_fails tag reason) e = (omega arith, λ calm moves. omega arith)
Edge-chances i (pod_starts d a port t) e = (rw e (omega arith), λ calm moves. absurd (moves refl))
Edge-chances i (pod_ready d a port t since until) e = (omega arith, λ calm moves. absurd (calm tt))
Edge-chances i (pod_timeout d a port t) e = (omega arith, λ calm moves. omega arith)
Edge-chances i (serves d a port since until) e =
    (rw e (omega arith), λ calm moves. absurd (moves refl))
Edge-chances i (expires d a port since until) e = (omega arith, λ calm moves. omega arith)
Edge-chances i (cleaned d) e = (omega arith, λ calm moves. omega arith)
Edge-chances i (dropped reason) e = (omega arith, λ calm moves. omega arith)

nat_beq-same : (n : ℕ) → nat_beq n n ≡ true
nat_beq-same n = ground (arith, nat_beq_iff n n)

module _ (X : External) (jenkins : JenkinsConfig) (config : KubernetesConfig) (n : ℕ) where
  abbrev pub after_handling : PrInstance → World X.E → ℕ
  after_handling i w = chances (lookup n (handle_instance X jenkins config n i w).1.instances)

  -- A build or a start of a pod that takes too long ends.
  late_building :
      (i : PrInstance) (w : World X.E) (hash short : Text) (t : ℕ) (url : Option Text)
      → lookup n w.instances ≡ some i
      → from_secs (Jenkins.build_timeout_secs jenkins) < (X.now w.ext).0 - t
      → chances (
          lookup n
            (Lifecycle.handle_state X jenkins config n hash short (building t url) w).1.instances)
        ≡ 1
  unfolding Lifecycle.handle_state Lifecycle.handle_building Lifecycle.set_instance outside
      broadcast
  late_building i w hash short t url there late =
      rw is_late (ap chances (lookup-update n n _ _) ∙ rw (nat_beq-same, there) refl)
    where
      is_late : ltb (from_secs (Jenkins.build_timeout_secs jenkins)) ((X.now w.ext).0 - t) ≡ true
      is_late = ground arith

  late_starting :
      (i : PrInstance) (w : World X.E) (hash short d a : Text) (port t : ℕ)
      → lookup n w.instances ≡ some i
      → Lifecycle.startup_timeout < (X.now w.ext).0 - t
      → chances (
          lookup n
            (Lifecycle.handle_state X jenkins config n hash short
              (starting d a port t)
              w).1.instances)
        ≡ 1
  unfolding Lifecycle.handle_state Lifecycle.handle_starting Lifecycle.set_instance outside
      broadcast
  late_starting i w hash short d a port t there late =
      rw is_late (ap chances (lookup-update n n _ _) ∙ rw (nat_beq-same, there) refl)
    where
      is_late : ltb Lifecycle.startup_timeout ((X.now w.ext).0 - t) ≡ true
      is_late = ground arith

  -- A handling never gives an instance a chance back, and takes one if the state is over.
  pub handled-chances :
      (i : PrInstance) (w : World X.E)
      → lookup n w.instances ≡ some i
      → (after_handling i w ≤ chances_of i.state)
        × (Overdue jenkins i.state (X.now w.ext).0 → after_handling i w < chances_of i.state)
  unfolding handle_instance
  handled-chances i w there = (rw own (Edge-chances i f.edge refl).0, over i.state refl)
    where
      f :
          Follows
            (Overdue jenkins i.state (X.now w.ext).0)
            n
            i.commit_hash_short
            i.state
            (shared w)
            (handle_instance X jenkins config n i w)
      f = handle_instance-Follows X jenkins config n i w

      own : lookup n (handle_instance X jenkins config n i w).1.instances ≡ after f.outcome (some i)
      own = own_entry X jenkins config n i w _ f there

      left : InstanceState → ℕ
      left s = chances (
          lookup n
            (Lifecycle.handle_state X jenkins config n i.commit_hash i.commit_hash_short s
              w).1.instances)

      calm :
          ¬ IsWork i.state
          → Overdue jenkins i.state (X.now w.ext).0
          → left i.state < chances_of i.state
      calm no_work due = rw own ((Edge-chances i f.edge refl).1 no_work (f.leaves due))

      back :
          (s : InstanceState)
          → s ≡ i.state
          → ¬ IsWork s
          → Overdue jenkins s (X.now w.ext).0
          → left s < chances_of s
      back s e =
          subst (λ x. ¬ IsWork x → Overdue jenkins x (X.now w.ext).0 → left x < chances_of x)
            (sym e) calm

      over :
          (s : InstanceState)
          → s ≡ i.state
          → Overdue jenkins s (X.now w.ext).0
          → left s < chances_of s
      over (building t url) e late =
          omega (arith, late_building i w i.commit_hash i.commit_hash_short t url there late)
      over (starting d a port t) e late =
          omega (arith, late_starting i w i.commit_hash i.commit_hash_short d a port t there late)
      over (deploying tag) e due = back _ e (λ h. h) due
      over (ready d a port since until) e due = back _ e (λ h. h) due
      over (shutting_down d) e due = back _ e (λ h. h) due
      over (failed reason) e due = back _ e (λ h. h) due
