-- ===== src/K8s/Comes.antt =====
-- How a PR whose image exists comes to be served (src/k8s/lifecycle.rs), if Kubernetes does what it
-- is asked.
use steel_proxy.Common.{
  ℕ, nat_eq, nat_beq, nat_beq_iff, ◌-◌, ◌≤◌, Text, text_eq, ◌≡◌, refl, ap, ◌∙◌, some, true, false,
  ok, arith, inl, inr, eq_self, ltb,
}
use steel_proxy.Common.Map.{lookup, lookup-insert}
use steel_proxy.Config.Types.{KubernetesConfig, JenkinsConfig}
use steel_proxy.External.{External}
use steel_proxy.World.{World, outside, broadcast}
use steel_proxy.Db.Effects.{upsert-cases}
use steel_proxy.Proxy.Backends.{get, add_dynamic}
use steel_proxy.K8s.Instance.{PrInstance, InstanceState, deploying, starting, ready}
use steel_proxy.K8s.Instances.{backend_name, pr_backend, register_backend, update_instance_state}
use steel_proxy.K8s.Manager
use steel_proxy.K8s.Lifecycle
use steel_proxy.K8s.Consistency.{lookup-update, backends-update}

-- PR `n` is ready at an address: its instance says so, and its backend is found under its name.
pub record IsServed (n : ℕ) (name address : Text) (port : ℕ) (i : PrInstance) {E : Type 0}
    (w : World E) : Type 0 where
  pub since : ℕ
  pub until : ℕ
  pub instance_ready :
      lookup n w.instances ≡ some (record i { state = ready name address port since until })
  pub backend_found : get w.backends (backend_name n) ≡ some (pr_backend n address port)

pub nat_beq-same : (n : ℕ) → nat_beq n n ≡ true
nat_beq-same n = ground (arith, nat_beq_iff n n)

registered_found :
    {E : Type 0} (n : ℕ) (a : Text) (port : ℕ) (w : World E)
    → get (register_backend n a port w).backends (backend_name n) ≡ some (pr_backend n a port)
unfolding register_backend get add_dynamic
registered_found n a port w = rw (lookup-insert, eq_self) refl

module _ (X : External) (jenkins : JenkinsConfig) (config : KubernetesConfig) where
  become_ready-IsServed :
      (n : ℕ) (hash short name a : Text) (port : ℕ) (i : PrInstance) (w : World X.E)
      → lookup n w.instances ≡ some i
      → IsServed n name a port i
          (Lifecycle.become_ready X jenkins config n hash short name a port w).1
  unfolding Lifecycle.become_ready Lifecycle.set_instance outside broadcast register_backend
  become_ready-IsServed n hash short name a port i w there =
      elim (upsert-cases X n (Lifecycle.ready_build X jenkins config n hash short) updated) [
        | inl (e, now, id, p) ↦ rw p (served _ refl refl)
        | inr (m, e, p) ↦ rw p (served _ refl refl)
      ]
    where
      e1 : X.E
      e1 = (X.now w.ext).1

      final : InstanceState
      final = ready name a port (X.now e1).0 (Lifecycle.shutdown_time config (X.now w.ext).0)

      registered : World X.E
      registered = record (register_backend n a port w) { ext = (X.now e1).1 }

      updated : World X.E
      updated = update_instance_state n final registered

      served :
          (v : World X.E)
          → v.instances ≡ updated.instances
          → v.backends ≡ updated.backends
          → IsServed n name a port i v
      served v same_instances same_backends = record {
        since = (X.now e1).0;
        until = Lifecycle.shutdown_time config (X.now w.ext).0;
        instance_ready =
            ap (lookup n) same_instances
            ∙ lookup-update n n final registered
            ∙ rw (there, nat_beq-same) refl;
        backend_found =
            ap (λ r. get r (backend_name n)) (same_backends ∙ backends-update n final registered)
            ∙ registered_found n a port w;
      }

  -- The instance once the deployment and the service are there.
  abbrev pub started : PrInstance → Text → Text → ℕ → ℕ → PrInstance
  started i name a port t = record i { state = starting name a port t }

  deploying-starts :
      (n : ℕ) (i : PrInstance) (w : World X.E) (tag name a : Text) (port : ℕ) (e1 e2 : X.E)
      → lookup n w.instances ≡ some i
      → i.state ≡ deploying tag
      → Manager.create_deployment X config n tag w ≡ (ok name, record w { ext = e1 })
      → Manager.create_service X config n (record w { ext = e1 })
        ≡ (ok (a, port), record w { ext = e2 })
      → lookup n (Lifecycle.handle_instance X jenkins config n i w).1.instances
        ≡ some (started i name a port (X.now e2).0)
  unfolding Lifecycle.handle_instance Lifecycle.handle_state Lifecycle.handle_deploying
      Lifecycle.start_service Lifecycle.set_instance outside
  deploying-starts n i w tag name a port e1 e2 there state made exposed =
      rw (state, made, exposed)
        (lookup-update n n _ (record w { ext = (X.now e2).1 }) ∙ rw (there, nat_beq-same) refl)

  starting-IsServed :
      (n : ℕ) (i : PrInstance) (v : World X.E) (name a : Text) (port t : ℕ) (e : X.E)
      → lookup n v.instances ≡ some (started i name a port t)
      → (X.now v.ext).0 - t ≤ Lifecycle.startup_timeout
      → Manager.is_deployment_ready X config name (record v { ext = (X.now v.ext).1 })
        ≡ (ok true, record v { ext = e })
      → IsServed n name a port i
          (Lifecycle.handle_instance X jenkins config n (started i name a port t) v).1
  unfolding Lifecycle.handle_instance Lifecycle.handle_state Lifecycle.handle_starting outside
  starting-IsServed n i v name a port t e there on_time up =
      rw (in_time, up)
        (again (
          become_ready-IsServed n i.commit_hash i.commit_hash_short name a port
            (started i name a port t) (record v { ext = e }) there))
    where
      in_time : ltb Lifecycle.startup_timeout ((X.now v.ext).0 - t) ≡ false
      in_time = ground arith

      again :
          {w : World X.E}
          → IsServed n name a port (started i name a port t) w
          → IsServed n name a port i w
      again s = record {
        since = s.since;
        until = s.until;
        instance_ready = s.instance_ready;
        backend_found = s.backend_found;
      }

  -- If Kubernetes makes the deployment and the service that a round asks for, and a later round
  -- finds a replica available within five minutes, with the instance left alone in between, then
  -- after these two handlings PR `n` is ready at the service's address, and its backend is found
  -- under its name.
  pub deploying-IsServed :
      (n : ℕ) (i : PrInstance) (w v : World X.E) (tag name a : Text) (port : ℕ) (e1 e2 e3 : X.E)
      → lookup n w.instances ≡ some i
      → i.state ≡ deploying tag
      → Manager.create_deployment X config n tag w ≡ (ok name, record w { ext = e1 })
      → Manager.create_service X config n (record w { ext = e1 })
        ≡ (ok (a, port), record w { ext = e2 })
      → lookup n v.instances
        ≡ lookup n (Lifecycle.handle_instance X jenkins config n i w).1.instances
      → (X.now v.ext).0 - (X.now e2).0 ≤ Lifecycle.startup_timeout
      → Manager.is_deployment_ready X config name (record v { ext = (X.now v.ext).1 })
        ≡ (ok true, record v { ext = e3 })
      → (lookup n v.instances ≡ some (started i name a port (X.now e2).0))
        × IsServed n name a port i
            (Lifecycle.handle_instance X jenkins config n (started i name a port (X.now e2).0) v).1
  deploying-IsServed n i w v tag name a port e1 e2 e3 there state made exposed alone on_time up =
      (now_there, starting-IsServed n i v name a port (X.now e2).0 e3 now_there on_time up)
    where
      now_there : lookup n v.instances ≡ some (started i name a port (X.now e2).0)
      now_there = alone ∙ deploying-starts n i w tag name a port e1 e2 there state made exposed
