-- ===== src/K8s/Follows/Building.antt =====
-- `handle_building` of src/k8s/lifecycle.rs against the state machine.
use steel_proxy.Common.{
  ℕ, nat_eq, ◌-◌, Text, Option, none, some, refl, Bool-cases, inl, inr, arith, ltb,
}
use steel_proxy.Config.Types.{KubernetesConfig, JenkinsConfig}
use steel_proxy.External.{External}
use steel_proxy.World.{World, outside, broadcast}
use steel_proxy.World.Quiet.{Quiet-cases}
use steel_proxy.Jenkins
use steel_proxy.Jenkins.{BuildStatus, queued, running, success, not_found, failure}
use steel_proxy.K8s.Instance.{building}
use steel_proxy.K8s.Manager.{from_secs}
use steel_proxy.K8s.Quiet.{get_build_url-Quiet, get_build_status-Quiet}
use steel_proxy.K8s.Lifecycle
use steel_proxy.K8s.Follows.{Follows, set_instance-Follows}
use steel_proxy.K8s.Machine.{stays, build_runs, build_done, build_fails, shared, settle, Overdue}

module _ (X : External) (jenkins : JenkinsConfig) (config : KubernetesConfig) where
  on_status-Follows :
      (due : Type 0)
      → ¬ due
      → (n : ℕ) (short : Text) (t : ℕ) (url : Option Text) (status : BuildStatus) (w : World X.E)
      → Follows due n short
          (building t url)
          (shared w)
          (Lifecycle.on_status X jenkins config n short status w)
  unfolding Lifecycle.on_status broadcast settle
  on_status-Follows due early n short t url success w =
      set_instance-Follows X jenkins config _ n short _ _ _ (build_done t url) refl
  on_status-Follows due early n short t url (failure reason) w =
      set_instance-Follows X jenkins config _ n short _ _ _ (build_fails t url reason) refl
  on_status-Follows due early n short t url running w = record {
    completes = refl;
    outcome = stays;
    edge = build_runs t url;
    leaves = λ h e. early h;
    effect = refl;
  }
  on_status-Follows due early n short t url queued w = record {
    completes = refl;
    outcome = stays;
    edge = build_runs t url;
    leaves = λ h e. early h;
    effect = refl;
  }
  on_status-Follows due early n short t url not_found w =
      set_instance-Follows X jenkins config _ n short _ _ _ (build_fails t url _) refl

  poll_build-Follows :
      (due : Type 0)
      → ¬ due
      → (n : ℕ) (short : Text) (t : ℕ) (url build_url : Option Text) (w : World X.E)
      → Follows due n short
          (building t url)
          (shared w)
          (Lifecycle.poll_build X jenkins config n short build_url w)
  unfolding Lifecycle.poll_build settle
  poll_build-Follows due early n short t url none w = record {
    completes = refl;
    outcome = stays;
    edge = build_runs t url;
    leaves = λ h e. early h;
    effect = refl;
  }
  poll_build-Follows due early n short t url (some b) w =
      elim (Quiet-cases _ (get_build_status-Quiet X jenkins b) w) [
        | inl (status, e, p) ↦
            rw p (on_status-Follows due early n short t url status (record w { ext = e }))
        | inr (m, e, p) ↦ rw p (record {
          completes = refl;
          outcome = stays;
          edge = build_runs t url;
          leaves = λ h e. early h;
          effect = refl;
        })
      ]

  poll_queue-Follows :
      (due : Type 0)
      → ¬ due
      → (n : ℕ) (short : Text) (t : ℕ) (url queue_url : Option Text) (w : World X.E)
      → Follows due n short
          (building t url)
          (shared w)
          (Lifecycle.poll_queue X jenkins config n short queue_url w)
  unfolding Lifecycle.poll_queue settle
  poll_queue-Follows due early n short t url none w = record {
    completes = refl;
    outcome = stays;
    edge = build_runs t url;
    leaves = λ h e. early h;
    effect = refl;
  }
  poll_queue-Follows due early n short t url (some q) w =
      elim (Quiet-cases _ (get_build_url-Quiet X jenkins q) w) [
        | inl (b, e, p) ↦ rw p (poll_build-Follows due early n short t url b (record w { ext = e }))
        | inr (m, e, p) ↦ rw p (record {
          completes = refl;
          outcome = stays;
          edge = build_runs t url;
          leaves = λ h e. early h;
          effect = refl;
        })
      ]

  pub handle_building-Follows :
      (n : ℕ) (short : Text) (t : ℕ) (url : Option Text) (w : World X.E)
      → Follows
          (Overdue jenkins (building t url) (X.now w.ext).0)
          n
          short
          (building t url)
          (shared w)
          (Lifecycle.handle_building X jenkins config n short t url w)
  unfolding Lifecycle.handle_building outside broadcast settle
  handle_building-Follows n short t url w =
      elim (Bool-cases
        (ltb (from_secs (Jenkins.build_timeout_secs jenkins)) ((X.now w.ext).0 - t))) [
          | inl late ↦
              rw late
                (set_instance-Follows X jenkins config _ n short _ _ _ (build_fails t url _) refl)
          | inr on_time ↦ rw on_time (poll_queue-Follows _ (λ h. ground arith) n short t url url _)
        ]
