-- ===== src/Startup.antt =====
-- src/main.rs: from the configuration to the loop that accepts connections.
pub mod Serves
pub mod Reachable
pub mod Sound
pub mod Arrivals
use steel_proxy.Common.{
  ℕ, Option, none, some, Text, codes, show, List, [], ◌∷◌, ◌++◌, Result, ok, err, panic,
}
use steel_proxy.Common.Exec.{Exec, pure, lift, modify, try_catch, ◌>>=◌, ◌>>◌}
use steel_proxy.Config.Types.{ProxyConfig, KubernetesConfig, JenkinsConfig}
use steel_proxy.Config.Load.{Files, load}
use steel_proxy.External.{External, Reply, answer, refusal, to_result}
use steel_proxy.World.{World, outside_fallible}
use steel_proxy.Db.Init.{Storage, init}
use steel_proxy.Db.Table.{Table}
use steel_proxy.K8s.Recovery.{recover_from_db}
use steel_proxy.Proxy.Server.{start}

-- `if let (Some(k8s_manager), Some(jenkins_client))`: the parts that the lifecycle loop needs. A
-- manager and a client hold their configuration and are made wherever there is one.
unfoldable pub both_configured :
    Option KubernetesConfig → Option JenkinsConfig → Option (KubernetesConfig × JenkinsConfig)
both_configured (some k8s) (some jenkins) = some (k8s, jenkins)
both_configured (some k8s) none = none
both_configured none jenkins = none

-- The program while it accepts connections: the configuration, and that of the lifecycle loop if
-- one was spawned.
pub record Serving : Type 0 where
  pub config : ProxyConfig
  pub lifecycle : Option (KubernetesConfig × JenkinsConfig)

-- The arms of `match listener.accept().await`, in order: a connection is handed to a task of its
-- own, an error is logged.
unfoldable pub accept_loop {ℓ} : {Connection : Type ℓ} → List (Reply Connection) → List Connection
accept_loop [] = []
accept_loop (answer stream ∷ rest) = stream ∷ accept_loop rest
accept_loop (refusal e ∷ rest) = accept_loop rest

-- `bind` is `TcpListener::bind`; `meanwhile` is what the lifecycle loop has done when it answers.
module _ (X : External) (head_sha : X.Json → Reply Text) (F : Files) (storage : Storage X.E)
    (bind : Text → X.E → Reply (Unit {0}) × X.E) (meanwhile : World X.E → World X.E) where
  -- What recovers, before the loop is spawned; an error is only logged.
  unfoldable pub recover : Option (KubernetesConfig × JenkinsConfig) → Exec (World X.E) (Unit {0})
  recover none = pure tt
  recover (some (k8s, jenkins)) = try_catch (recover_from_db X k8s) (λ n. pure tt) λ e. pure tt

  abbrev pub spawned : Option (KubernetesConfig × JenkinsConfig) → Exec (World X.E) (Unit {0})
  spawned none = pure tt
  spawned (some both) = modify meanwhile

  unfoldable pub serve : ProxyConfig → Exec (World X.E) Serving
  unfolding recover
  serve config = do
    let lifecycle = both_configured config.kubernetes config.jenkins
    recover lifecycle
    spawned lifecycle
    outside_fallible (bind (config.bind_address ++ (codes ":" ++ show config.bind_port)))
    pure (record { config = config; lifecycle = lifecycle })

  abbrev pub with_world : Result Serving → World X.E → Result (Serving × World X.E)
  with_world (ok s) w = ok (s, w)
  with_world (err m) w = err m
  with_world panic w = panic

  abbrev pub served : ProxyConfig → Result Table × X.E → Result (Serving × World X.E)
  served config (ok builds, e) =
      let (r, w) = serve config (start X head_sha config builds e) in with_world r w
  served config (err m, e) = err m
  served config (panic, e) = panic

  abbrev pub loaded : Result ProxyConfig → X.E → Result (Serving × World X.E)
  loaded (ok config) e = served config (init X storage config.database_path e)
  loaded (err m) e = err m
  loaded panic e = panic

  -- `main` up to the loop over connections: the program that serves, with the state that its tasks
  -- share, or the error that it ends with.
  unfoldable pub main : F.Disk → X.E → Result (Serving × World X.E)
  unfolding serve
  main disk e = loaded (load F (codes "proxy-config.toml") disk) e
