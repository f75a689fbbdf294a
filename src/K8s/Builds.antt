-- ===== src/K8s/Builds.antt =====
-- How a PR whose build is under way comes to be served (src/k8s/lifecycle.rs), if Jenkins builds it
-- and Kubernetes does what it is asked.
use steel_proxy.Common.{
  ℕ, nat_eq, ◌-◌, ◌≤◌, Text, ◌≡◌, ◌∙◌, some, true, false, ok, arith, ltb, refl,
}
use steel_proxy.Common.Map.{lookup}
use steel_proxy.Config.Types.{KubernetesConfig, JenkinsConfig}
use steel_proxy.External.{External}
use steel_proxy.World.{World, outside, broadcast}
use steel_proxy.Jenkins
use steel_proxy.Jenkins.{success}
use steel_proxy.K8s.Instance.{PrInstance, building, deploying}
use steel_proxy.K8s.Instances.{image_tag}
use steel_proxy.K8s.Manager
use steel_proxy.K8s.Manager.{from_secs}
use steel_proxy.K8s.Lifecycle
use steel_proxy.K8s.Consistency.{lookup-update}
use steel_proxy.K8s.Comes.{IsServed, started, nat_beq-same, deploying-IsServed}

-- The instance once its image is built.
abbrev pub built : ℕ → PrInstance → PrInstance
built n i = record i { state = deploying (image_tag n i.commit_hash_short) }

module _ (X : External) (jenkins : JenkinsConfig) (config : KubernetesConfig) where
  building-deploys :
      (n : ℕ) (i : PrInstance) (w : World X.E) (t : ℕ) (item build : Text) (e1 e2 : X.E)
      → lookup n w.instances ≡ some i
      → i.state ≡ building t (some item)
      → (X.now w.ext).0 - t ≤ from_secs (Jenkins.build_timeout_secs jenkins)
      → Jenkins.get_build_url X jenkins item (record w { ext = (X.now w.ext).1 })
        ≡ (ok (some build), record w { ext = e1 })
      → Jenkins.get_build_status X jenkins build (record w { ext = e1 })
        ≡ (ok success, record w { ext = e2 })
      → lookup n (Lifecycle.handle_instance X jenkins config n i w).1.instances ≡ some (built n i)
  unfolding Lifecycle.handle_instance Lifecycle.handle_state Lifecycle.handle_building
      Lifecycle.poll_queue Lifecycle.poll_build Lifecycle.on_status Lifecycle.set_instance outside
      broadcast
  building-deploys n i w t item build e1 e2 there state on_time queued done =
      rw (state, in_time, queued, done) (lookup-update n n _ _ ∙ rw (there, nat_beq-same) refl)
    where
      in_time : ltb (from_secs (Jenkins.build_timeout_secs jenkins)) ((X.now w.ext).0 - t) ≡ false
      in_time = ground arith

  -- If Jenkins tells a round, before the build's time is over, that the build has succeeded,
  -- Kubernetes makes the deployment and the service that a later round asks for, and a round after
  -- it finds a replica available within five minutes, with the instance left alone in between, then
  -- after these three handlings, each of the state that the one before led to, PR `n` is ready at
  -- the service's address, and its backend is found under its name.
  pub building-IsServed :
      (n : ℕ) (i : PrInstance) (w u v : World X.E) (t : ℕ) (item build name a : Text) (port : ℕ)
      (e1 e2 e3 e4 e5 : X.E)
      → lookup n w.instances ≡ some i
      → i.state ≡ building t (some item)
      → (X.now w.ext).0 - t ≤ from_secs (Jenkins.build_timeout_secs jenkins)
      → Jenkins.get_build_url X jenkins item (record w { ext = (X.now w.ext).1 })
        ≡ (ok (some build), record w { ext = e1 })
      → Jenkins.get_build_status X jenkins build (record w { ext = e1 })
        ≡ (ok success, record w { ext = e2 })
      → lookup n u.instances
        ≡ lookup n (Lifecycle.handle_instance X jenkins config n i w).1.instances
      → Manager.create_deployment X config n (image_tag n i.commit_hash_short) u
        ≡ (ok name, record u { ext = e3 })
      → Manager.create_service X config n (record u { ext = e3 })
        ≡ (ok (a, port), record u { ext = e4 })
      → lookup n v.instances
        ≡ lookup n (Lifecycle.handle_instance X jenkins config n (built n i) u).1.instances
      → (X.now v.ext).0 - (X.now e4).0 ≤ Lifecycle.startup_timeout
      → Manager.is_deployment_ready X config name (record v { ext = (X.now v.ext).1 })
        ≡ (ok true, record v { ext = e5 })
      → (lookup n u.instances ≡ some (built n i))
        × (lookup n v.instances
            ≡ some (started X jenkins config (built n i) name a port (X.now e4).0))
        × IsServed n name a port
            (built n i)
            (Lifecycle.handle_instance X jenkins config n
              (started X jenkins config (built n i) name a port (X.now e4).0)
              v).1
  building-IsServed n i w u v t item build name a port e1 e2 e3 e4 e5 there state on_time queued
        done left_alone made exposed alone in_time up =
      (now_built, deployed.0, deployed.1)
    where
      now_built : lookup n u.instances ≡ some (built n i)
      now_built =
          left_alone ∙ building-deploys n i w t item build e1 e2 there state on_time queued done

      deployed :
          (lookup n v.instances
            ≡ some (started X jenkins config (built n i) name a port (X.now e4).0))
          × IsServed n name a port
              (built n i)
              (Lifecycle.handle_instance X jenkins config n
                (started X jenkins config (built n i) name a port (X.now e4).0)
                v).1
      deployed =
          deploying-IsServed X jenkins config n (built n i) u v (image_tag n i.commit_hash_short)
            name a port e3 e4 e5 now_built refl made exposed alone in_time up
