-- ===== src/Startup/Reachable.antt =====
-- The shared state from the moment at which src/main.rs serves, whichever task acts next.
use steel_proxy.Common.{
  Text, text_eq, codes, ◌≡◌, refl, subst, Option, none, some, Result, ok, err, panic,
}
use steel_proxy.Common.Exec.{Yields, Yields-bind, Yields-pure}
use steel_proxy.Common.Walks.{Walks, Walks-pure}
use steel_proxy.Config.Types.{ProxyConfig, KubernetesConfig, JenkinsConfig}
use steel_proxy.Config.Load.{Files, load}
use steel_proxy.External.{External, Reply}
use steel_proxy.World.{World, outside_fallible}
use steel_proxy.Db.Init.{Storage, init}
use steel_proxy.Db.Table.{Table}
use steel_proxy.Proxy.Server.{start}
use steel_proxy.Startup
use steel_proxy.Startup.{Serving}
use steel_proxy.System.Steps.{Reaches, Reaches-Preorder, step_rules}
use steel_proxy.System.Tasks.{recover_from_db-Reaches}

module _ (X : External) (head_sha : X.Json → Reply Text) (F : Files) (storage : Storage X.E)
    (bind : Text → X.E → Reply (Unit {0}) × X.E) (meanwhile : World X.E → World X.E)
    (are_steps : (w : World X.E) → Reaches w (meanwhile w)) where
  recover-Reaches :
      (lifecycle : Option (KubernetesConfig × JenkinsConfig))
      → Walks Reaches (Startup.recover X head_sha F storage bind meanwhile lifecycle)
  unfolding Startup.recover
  recover-Reaches none = Walks-pure Reaches-Preorder tt
  recover-Reaches (some (k8s, jenkins)) = search (step_rules, recover_from_db-Reaches) depth 6

  spawned-Reaches :
      (lifecycle : Option (KubernetesConfig × JenkinsConfig))
      → Walks Reaches (Startup.spawned X head_sha F storage bind meanwhile lifecycle)
  spawned-Reaches none = Walks-pure Reaches-Preorder tt
  spawned-Reaches (some both) = record { at = are_steps }

  serve-Reaches :
      (c : ProxyConfig) → Walks Reaches (Startup.serve X head_sha F storage bind meanwhile c)
  unfolding Startup.serve
  serve-Reaches c = search (step_rules, recover-Reaches, spawned-Reaches) depth 8

  serve-config :
      (c : ProxyConfig)
      → Yields (λ (s : Serving). s.config ≡ c) (Startup.serve X head_sha F storage bind meanwhile c)
  unfolding Startup.serve
  serve-config c =
      Yields-bind (Startup.recover X head_sha F storage bind meanwhile lifecycle) _ λ recovered.
        Yields-bind (Startup.spawned X head_sha F storage bind meanwhile lifecycle) _
          λ done. Yields-bind (outside_fallible (bind _)) _ λ bound. Yields-pure _ refl
    where
      lifecycle : Option (KubernetesConfig × JenkinsConfig)
      lifecycle = Startup.both_configured c.kubernetes c.jenkins

  -- How a start that succeeds went: `c` was loaded, `builds` is the table of the database.
  pub record Booted (disk : F.Disk) (e : X.E) (s : Serving) (w : World X.E) : Type 0 where
    pub c : ProxyConfig
    pub builds : Table
    pub e' : X.E
    pub read : load F (codes "proxy-config.toml") disk ≡ ok c
    pub opened : (init X storage c.database_path e).0 ≡ ok builds
    pub same : s.config ≡ c
    pub path : Reaches (start X head_sha c builds e') w

  with_world-ok :
      (r : Result Serving) (u : World X.E) (s : Serving) (w : World X.E)
      → Startup.with_world X head_sha F storage bind meanwhile r u ≡ ok (s, w)
      → (r ≡ ok s) × (u ≡ w)
  with_world-ok (ok s') u s w h = (cc, cc)
  with_world-ok (err m) u s w h = absurd cc
  with_world-ok panic u s w h = absurd cc

  -- The way from the opened database on.
  served-Booted :
      (disk : F.Disk) (e e' : X.E) (c : ProxyConfig) (r : Result Table) (s : Serving)
      (w : World X.E)
      → load F (codes "proxy-config.toml") disk ≡ ok c
      → (init X storage c.database_path e).0 ≡ r
      → Startup.served X head_sha F storage bind meanwhile c (r, e') ≡ ok (s, w)
      → Booted disk e s w
  served-Booted disk e e' c (ok builds) s w read opened h =
      let (served, same_world) = with_world-ok _ _ s w h in
      record {
        c = c;
        builds = builds;
        e' = e';
        read = read;
        opened = opened;
        same = (serve-config c).at (start X head_sha c builds e') s served;
        path =
            subst (Reaches (start X head_sha c builds e')) same_world
              ((serve-Reaches c).at (start X head_sha c builds e'));
      }
  served-Booted disk e e' c (err m) s w read opened h = absurd cc
  served-Booted disk e e' c panic s w read opened h = absurd cc

  loaded-Booted :
      (disk : F.Disk) (e : X.E) (r : Result ProxyConfig) (s : Serving) (w : World X.E)
      → load F (codes "proxy-config.toml") disk ≡ r
      → Startup.loaded X head_sha F storage bind meanwhile r e ≡ ok (s, w)
      → Booted disk e s w
  loaded-Booted disk e (ok c) s w read h = served-Booted disk e _ c _ s w read refl h
  loaded-Booted disk e (err m) s w read h = absurd cc
  loaded-Booted disk e panic s w read h = absurd cc

  pub main-Booted :
      (disk : F.Disk) (e : X.E) (s : Serving) (w : World X.E)
      → Startup.main X head_sha F storage bind meanwhile disk e ≡ ok (s, w)
      → Booted disk e s w
  unfolding Startup.main
  main-Booted disk e s w h = loaded-Booted disk e _ s w refl h
