-- ===== src/Startup/Serves.antt =====
-- When src/main.rs comes to accept connections.
use steel_proxy.Common.{Text, codes, show, ◌++◌, ◌≡◌, refl, Option, none, some, Result, ok}
use steel_proxy.Common.Exec.{catch_run, pure}
use steel_proxy.Config.Types.{ProxyConfig, KubernetesConfig, JenkinsConfig}
use steel_proxy.Config.Load.{Files, load}
use steel_proxy.External.{External, Reply, answer}
use steel_proxy.World.{World, outside_fallible}
use steel_proxy.World.Quiet.{IsReturned, value, error}
use steel_proxy.Db.Init.{Storage, init}
use steel_proxy.Db.Table.{Table}
use steel_proxy.K8s.Recovered.{recover_from_db-IsReturned}
use steel_proxy.Proxy.Server.{start}
use steel_proxy.Startup

-- What serves with a configuration, and the address that it binds.
abbrev pub serving : ProxyConfig → Startup.Serving
serving c = record { config = c; lifecycle = Startup.both_configured c.kubernetes c.jenkins }

abbrev pub bind_address : ProxyConfig → Text
bind_address c = c.bind_address ++ (codes ":" ++ show c.bind_port)

module _ (X : External) (head_sha : X.Json → Reply Text) (F : Files) (storage : Storage X.E)
    (bind : Text → X.E → Reply (Unit {0}) × X.E) (meanwhile : World X.E → World X.E) where
  logged :
      {A : Type 0} (r : Result A) (w : World X.E)
      → IsReturned r
      → (catch_run (λ n. pure {A = Unit {0}} tt) (λ e. pure tt) r w).0 ≡ ok tt
  logged r w h =
      elim h as (λ r h'. (catch_run (λ n. pure {A = Unit {0}} tt) (λ e. pure tt) r w).0 ≡ ok tt) [
        | value a ↦ refl
        | error e ↦ refl
      ]

  recover-returns :
      (lifecycle : Option (KubernetesConfig × JenkinsConfig)) (w : World X.E)
      → (Startup.recover X head_sha F storage bind meanwhile lifecycle w).0 ≡ ok tt
  unfolding Startup.recover
  recover-returns none w = refl
  recover-returns (some (k8s, jenkins)) w = logged _ _ (recover_from_db-IsReturned X k8s w)

  spawned-returns :
      (lifecycle : Option (KubernetesConfig × JenkinsConfig)) (w : World X.E)
      → (Startup.spawned X head_sha F storage bind meanwhile lifecycle w).0 ≡ ok tt
  spawned-returns none w = refl
  spawned-returns (some both) w = refl

  serve-bound :
      (c : ProxyConfig) (w : World X.E)
      → ((e : X.E) → (bind (bind_address c) e).0 ≡ answer tt)
      → (Startup.serve X head_sha F storage bind meanwhile c w).0 ≡ ok (serving c)
  unfolding Startup.serve outside_fallible
  serve-bound c w bound = rw (recover-returns, spawned-returns, bound) refl

  -- If the configuration is loaded, the database is opened and the port can be bound, then the
  -- program comes to accept connections with that configuration, whatever Kubernetes and the
  -- database answer to the recovery and whatever the lifecycle loop has done by then.
  pub main-serves :
      (disk : F.Disk) (e e' : X.E) (c : ProxyConfig) (builds : Table)
      → load F (codes "proxy-config.toml") disk ≡ ok c
      → init X storage c.database_path e ≡ (ok builds, e')
      → ((a : X.E) → (bind (bind_address c) a).0 ≡ answer tt)
      → (w : World X.E) × (Startup.main X head_sha F storage bind meanwhile disk e
          ≡ ok (serving c, w))
  unfolding Startup.main
  main-serves disk e e' c builds read opened bound = (
    (Startup.serve X head_sha F storage bind meanwhile c (start X head_sha c builds e')).1,
    rw (read, opened, serve-bound c _ bound) refl,
  )
