-- ===== src/K8s/Endings.antt =====
-- How long an instance of src/k8s/lifecycle.rs lasts, whatever else happens between the rounds
-- that handle it.
use steel_proxy.Common.{ℕ, nat_eq, suc, ◌+◌, ◌≤◌, ◌≡◌, refl, Option, none, some, arith}
use steel_proxy.Common.Map.{lookup}
use steel_proxy.Config.Types.{KubernetesConfig, JenkinsConfig}
use steel_proxy.External.{External}
use steel_proxy.World.{World}
use steel_proxy.K8s.Instance.{
  PrInstance, InstanceState, building, deploying, starting, ready, shutting_down, failed,
}
use steel_proxy.K8s.Lifecycle.{handle_instance}
use steel_proxy.K8s.Machine.{Overdue}
use steel_proxy.K8s.Chances.{chances_of, chances, handled-chances}

module _ (X : External) (jenkins : JenkinsConfig) (config : KubernetesConfig) (n : ℕ) where
  -- A course of events with so many handlings of PR `n` at a time at which its state is over.
  -- Between them come handlings that are early and anything that leaves the instance alone.
  pub data Handlings : ℕ → World X.E → World X.E → Type 0 where
    ends : (w : World X.E) → Handlings 0 w w
    apart :
        (k : ℕ) (w u v : World X.E)
        → lookup n u.instances ≡ lookup n w.instances
        → Handlings k u v
        → Handlings k w v
    early :
        (k : ℕ) (w v : World X.E) (i : PrInstance)
        → lookup n w.instances ≡ some i
        → Handlings k (handle_instance X jenkins config n i w).1 v
        → Handlings k w v
    overdue :
        (k : ℕ) (w v : World X.E) (i : PrInstance)
        → lookup n w.instances ≡ some i
        → Overdue jenkins i.state (X.now w.ext).0
        → Handlings k (handle_instance X jenkins config n i w).1 v
        → Handlings (suc k) w v

  Handlings-bound :
      (k : ℕ) (w v : World X.E)
      → Handlings k w v
      → chances (lookup n v.instances) + k ≤ chances (lookup n w.instances)
  Handlings-bound _ w _ (ends _) = omega arith
  Handlings-bound k w v (apart _ _ u _ same rest) = rw (← same) (Handlings-bound k u v rest)
  Handlings-bound k w v (early _ _ _ i there rest) =
      rw there (
        omega (arith, Handlings-bound k _ v rest, (handled-chances X jenkins config n i w there).0))
  Handlings-bound _ w v (overdue k _ _ i there over rest) = rw there (
      omega
        (arith, Handlings-bound k _ v rest, (handled-chances X jenkins config n i w there).1 over))

  chances_of-bounds : (s : InstanceState) → (1 ≤ chances_of s) × (chances_of s ≤ 3)
  chances_of-bounds (building t url) = (omega arith, omega arith)
  chances_of-bounds (deploying tag) = (omega arith, omega arith)
  chances_of-bounds (starting d a port t) = (omega arith, omega arith)
  chances_of-bounds (ready d a port since until) = (omega arith, omega arith)
  chances_of-bounds (shutting_down d) = (omega arith, omega arith)
  chances_of-bounds (failed reason) = (omega arith, omega arith)

  chances-bound : (o : Option PrInstance) → chances o ≤ 3
  chances-bound none = omega arith
  chances-bound (some i) = (chances_of-bounds i.state).1

  no_chances : (o : Option PrInstance) → chances o ≤ 0 → o ≡ none
  no_chances none h = refl
  no_chances (some i) h = absurd (omega (arith, (chances_of-bounds i.state).0, h))

  -- An instance that is handled three times at a time at which its state is over is gone, whatever
  -- Kubernetes and Jenkins answer, and whatever happens between these handlings that leaves the
  -- instance alone; and no course of events handles it more often than that at such a time.
  pub Handlings-end :
      (k : ℕ) (w v : World X.E) → Handlings k w v → (k ≤ 3) × (k ≡ 3 → lookup n v.instances ≡ none)
  Handlings-end k w v run = (
    omega (arith, Handlings-bound k w v run, chances-bound (lookup n w.instances)),
    λ three.
        no_chances (lookup n v.instances)
          (omega (arith, three, Handlings-bound k w v run, chances-bound (lookup n w.instances))),
  )
