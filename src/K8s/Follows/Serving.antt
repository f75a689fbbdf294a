-- ===== src/K8s/Follows/Serving.antt =====
-- The handlers of src/k8s/lifecycle.rs for the states after the build, against the state
-- machine.
use steel_proxy.Common.{
  ℕ, nat_eq, ◌-◌, ◌≤◌, Text, ◌≡◌, refl, Bool, true, false, Bool-cases, Result, ok, inl, inr, arith,
  ltb, leb, ap, ◌∙◌, if◌then◌else◌,
}
use steel_proxy.Common.Exec.{Yields, Yields-bind, Yields-pure, pure, try_catch}
use steel_proxy.Config.Types.{KubernetesConfig, JenkinsConfig}
use steel_proxy.External.{External}
use steel_proxy.World.{World, outside, broadcast}
use steel_proxy.World.Quiet.{Quiet-cases}
use steel_proxy.Db.Effects.{upsert-cases}
use steel_proxy.K8s.Instance.{InstanceState, deploying, starting, ready, shutting_down}
use steel_proxy.K8s.Instances.{
  update_instance_state, remove_instance, register_backend, unregister_backend,
}
use steel_proxy.K8s.Manager
use steel_proxy.K8s.Manager.{from_secs, resource_name}
use steel_proxy.K8s.Quiet.{
  create_deployment-Quiet, create_service-Quiet, delete_instance-Quiet, is_deployment_ready-Quiet,
}
use steel_proxy.K8s.Lifecycle
use steel_proxy.K8s.Follows.{Follows, set_instance-Follows, shared-update}
use steel_proxy.K8s.Machine.{
  stays, goes, gone, deployed, deploy_fails, pod_starts, pod_ready, pod_timeout, serves, expires,
  cleaned, shared, settle, Overdue,
}

module _ (X : External) (jenkins : JenkinsConfig) (config : KubernetesConfig) where
  -- The name that `create_deployment` returns.
  create_deployment-name :
      (n : ℕ) (tag : Text)
      → Yields (λ name. name ≡ resource_name n) (Manager.create_deployment X config n tag)
  unfolding Manager.create_deployment
  create_deployment-name n tag = search (Yields-bind, Yields-pure) depth 14

  start_service-Follows :
      (n : ℕ) (short tag : Text) (w : World X.E)
      → Follows Unit n short
          (deploying tag)
          (shared w)
          (Lifecycle.start_service X jenkins config n (resource_name n) w)
  unfolding Lifecycle.start_service outside broadcast settle
  start_service-Follows n short tag w = elim (Quiet-cases _ (create_service-Quiet X config n) w) [
    | inl ((address, port), e, p) ↦
        rw p (set_instance-Follows X jenkins config _ n short _ _ _ (deployed tag _ _ _) refl)
    | inr (m, e, p) ↦
        rw p (set_instance-Follows X jenkins config _ n short _ _ _ (deploy_fails tag _) refl)
  ]

  pub handle_deploying-Follows :
      (n : ℕ) (short tag : Text) (w : World X.E)
      → Follows Unit n short
          (deploying tag)
          (shared w)
          (Lifecycle.handle_deploying X jenkins config n tag w)
  unfolding Lifecycle.handle_deploying broadcast settle
  handle_deploying-Follows n short tag w =
      elim (Quiet-cases _ (create_deployment-Quiet X config n tag) w) [
        | inl (name, e, p) ↦
            rw
              (
                p,
                (create_deployment-name n tag).at w name
                    (ap (λ (r : Result Text × World X.E). r.0) p),
              )
              (start_service-Follows n short tag _)
        | inr (m, e, p) ↦
            rw p (set_instance-Follows X jenkins config _ n short _ _ _ (deploy_fails tag _) refl)
      ]

  become_ready-Follows :
      (due : Type 0) (n : ℕ) (hash short d a : Text) (port t : ℕ) (w : World X.E)
      → Follows due n short
          (starting d a port t)
          (shared w)
          (Lifecycle.become_ready X jenkins config n hash short d a port w)
  unfolding Lifecycle.become_ready Lifecycle.set_instance outside broadcast settle register_backend
  become_ready-Follows due n hash short d a port t w =
      elim (upsert-cases X n (Lifecycle.ready_build X jenkins config n hash short) updated) [
        | inl (e, now, id, p) ↦ rw p (done _ refl)
        | inr (m, e, p) ↦ rw p (done _ refl)
      ]
    where
      e1 : X.E
      e1 = (X.now w.ext).1

      registered : World X.E
      registered = register_backend n a port w

      final : InstanceState
      final = ready d a port (X.now e1).0 (Lifecycle.shutdown_time config (X.now w.ext).0)

      updated : World X.E
      updated = update_instance_state n final (record registered { ext = (X.now e1).1 })

      done :
          (v : World X.E)
          → shared v ≡ shared updated
          → Follows due n short (starting d a port t) (shared w) (ok tt, v)
      done v same = record {
        completes = refl;
        outcome = goes final;
        edge = pod_ready d a port t _ _;
        leaves = λ _ e. cc;
        effect = same ∙ shared-update n final (record registered { ext = (X.now e1).1 });
      }

  pub handle_starting-Follows :
      (n : ℕ) (hash short d a : Text) (port t : ℕ) (w : World X.E)
      → Follows
          (Overdue jenkins (starting d a port t) (X.now w.ext).0)
          n
          short
          (starting d a port t)
          (shared w)
          (Lifecycle.handle_starting X jenkins config n hash short d a port t w)
  unfolding Lifecycle.handle_starting outside broadcast settle
  handle_starting-Follows n hash short d a port t w =
      elim (Bool-cases (ltb Lifecycle.startup_timeout ((X.now w.ext).0 - t))) [
        | inl late ↦
            rw late
              (set_instance-Follows X jenkins config _ n short _ _ _ (pod_timeout d a port t) refl)
        | inr on_time ↦ rw on_time (
            check_pod (Overdue jenkins (starting d a port t) (X.now w.ext).0) (λ h. ground arith)
              (record w { ext = (X.now w.ext).1 }))
      ]
    where
      stay :
          (due : Type 0)
          → ¬ due
          → (v : World X.E) → Follows due n short (starting d a port t) (shared v) (ok tt, v)
      stay due early v = record {
        completes = refl;
        outcome = stays;
        edge = pod_starts d a port t;
        leaves = λ h e. early h;
        effect = refl;
      }

      when :
          (due : Type 0)
          → ¬ due
          → (b : Bool) (v : World X.E)
          → Follows due n short (starting d a port t) (shared v) (
              (if b then Lifecycle.become_ready X jenkins config n hash short d a port else pure tt)
                v)
      when due early true v = become_ready-Follows due n hash short d a port t v
      when due early false v = stay due early v

      check_pod :
          (due : Type 0)
          → ¬ due
          → (v : World X.E)
          → Follows due n short (starting d a port t) (shared v) (
              try_catch
                (Manager.is_deployment_ready X config d)
                (λ (b : Bool).
                  if b
                  then Lifecycle.become_ready X jenkins config n hash short d a port
                  else pure tt)
                (λ e. pure tt)
                v)
      check_pod due early v = elim (Quiet-cases _ (is_deployment_ready-Quiet X config d) v) [
        | inl (b, e, p) ↦ rw p (when due early b (record v { ext = e }))
        | inr (m, e, p) ↦ rw p (stay due early (record v { ext = e }))
      ]

  pub handle_ready-Follows :
      (n : ℕ) (short d a : Text) (port since until : ℕ) (w : World X.E)
      → Follows
          (Overdue jenkins (ready d a port since until) (X.now w.ext).0)
          n
          short
          (ready d a port since until)
          (shared w)
          (Lifecycle.handle_ready X jenkins config n d until w)
  unfolding Lifecycle.handle_ready Lifecycle.set_instance outside broadcast settle
      unregister_backend
  handle_ready-Follows n short d a port since until w =
      elim (Bool-cases (leb until (X.now w.ext).0)) [
        | inl due ↦ rw due (record {
          completes = refl;
          outcome = goes (shutting_down d);
          edge = expires d a port since until;
          leaves = λ _ e. cc;
          effect = shared-update n _ _;
        })
        | inr early ↦ rw early (record {
          completes = refl;
          outcome = stays;
          edge = serves d a port since until;
          leaves = λ h e. absurd (not_due h early);
          effect = refl;
        })
      ]
    where
      not_due : until ≤ (X.now w.ext).0 → leb until (X.now w.ext).0 ≡ false → ⊥
      not_due h e = ground arith

  pub handle_shutting_down-Follows :
      (n : ℕ) (short d : Text) (w : World X.E)
      → Follows Unit n short
          (shutting_down d)
          (shared w)
          (Lifecycle.handle_shutting_down X jenkins config n d w)
  unfolding Lifecycle.handle_shutting_down broadcast settle remove_instance
  handle_shutting_down-Follows n short d w =
      elim (Quiet-cases _ (delete_instance-Quiet X config n) w) [
        | inl (u, e, p) ↦ rw p (record {
          completes = refl;
          outcome = gone;
          edge = cleaned d;
          leaves = λ _ e. cc;
          effect = refl;
        })
        | inr (m, e, p) ↦ rw p (record {
          completes = refl;
          outcome = gone;
          edge = cleaned d;
          leaves = λ _ e. cc;
          effect = refl;
        })
      ]
