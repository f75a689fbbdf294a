-- ===== src/Tests/System.antt =====
-- The tasks of the program and its start on concrete inputs.
use steel_proxy.Common.{
  ℕ, nat_eq, text_eq, text_beq, Text, codes, ◌≡◌, refl, some, none, [], Result, ok,
}
use steel_proxy.Common.Map.{lookup}
use steel_proxy.Config.Types.{BackendServer}
use steel_proxy.Config.Load.{load, default_config}
use steel_proxy.Config.Valid.{load-create_default}
use steel_proxy.External.{Reply, answer}
use steel_proxy.World.{World}
use steel_proxy.Db.Init.{Storage, init}
use steel_proxy.Db.Table.{Table}
use steel_proxy.Db.Opened.{KeepsUnique}
use steel_proxy.Proxy.Backends
use steel_proxy.K8s.Instances.{remove_instance}
use steel_proxy.Proxy.Wire.{login}
use steel_proxy.Proxy.Login.{on_packet}
use steel_proxy.Proxy.Reconnect.{connection}
use steel_proxy.Proxy.Server.{start_pr}
use steel_proxy.Startup
use steel_proxy.Startup.Serves.{main-serves, serving}
use steel_proxy.Startup.Sound.{main-IsSound}
use steel_proxy.Startup.Arrivals.{arrival_connected}
use steel_proxy.System.Steps.{Reaches, arrived, step, removes}
use steel_proxy.System.Sound.{IsSound}
use steel_proxy.Tests.{world_outside, head_sha}
use steel_proxy.Tests.Config.{files}
use steel_proxy.Tests.Login.{login_wire, steve, acknowledgement}

-- Another task removes PR 7.
removal : (w : World ℕ) → Reaches w (remove_instance 7 w)
removal w = step w _ (removes w 7)

-- A file system and a new database.
abbrev storage : Storage ℕ
storage = record {
  parent = λ path. some [];
  create_dir_all = λ path e. (answer tt, e);
  connect = λ url e. (answer none, e);
}

abbrev bind : Text → ℕ → Reply (Unit {0}) × ℕ
bind address e = (answer tt, e)

abbrev idle : World ℕ → World ℕ
idle w = w

idle_steps : (w : World ℕ) → Reaches w (idle w)
idle_steps w = arrived w

abbrev program : (Text → ℕ → Reply (Unit {0}) × ℕ) → Text → Result (Startup.Serving × World ℕ)
program bind_port disk =
    Startup.main (world_outside 1) head_sha files storage bind_port idle disk 100

default_loaded : load files (codes "proxy-config.toml") (codes "default") ≡ ok default_config
default_loaded =
    (load-create_default files (codes "proxy-config.toml") (codes "default") [] (codes "default")
      refl refl refl refl).1

opened :
    init (world_outside 1) storage default_config.database_path 100
    ≡ (ok (record { rows = [] }), 100)
unfolding init text_beq steel_proxy.Db.Init.asked steel_proxy.Db.Init.statement
    steel_proxy.Db.Table.create_table default_config
opened = refl

main-serves_example :
    (w : World ℕ) × (program bind (codes "default") ≡ ok (serving default_config, w))
main-serves_example =
    main-serves (world_outside 1) head_sha files storage bind idle (codes "default") 100 100
      default_config (record { rows = [] }) default_loaded opened (λ a. refl)

-- The state of the program that serves.
abbrev booted : World ℕ
booted = record {
  backends = Backends.new default_config.backends;
  next_client_id = 0;
  pending_switches = [];
  broadcasts = [];
  instances = [];
  builds = record { rows = [] };
  ext = 100;
}

serves_default : program bind (codes "default") ≡ ok (serving default_config, booted)
unfolding Startup.main Startup.serve Startup.recover Startup.both_configured default_config
    steel_proxy.World.outside_fallible steel_proxy.Proxy.Server.start
serves_default = rw (default_loaded, opened) refl

new_database : KeepsUnique storage
new_database url e t h = absurd (no_table t h)
  where
    no_table : (t : Table) → ¬ (answer none ≡ answer (some t))
    no_table t h = cc

main-IsSound_example : IsSound default_config.backends (remove_instance 7 booted)
main-IsSound_example =
    main-IsSound (world_outside 1) head_sha files storage bind idle (codes "default") 100
      (serving default_config) booted (remove_instance 7 booted) idle_steps new_database
      serves_default (removal booted)

no_switch : lookup 77 booted.pending_switches ≡ none
unfolding lookup
no_switch = refl

arrival_connected_example :
    (b : BackendServer) × ((on_packet default_config login_wire login acknowledgement
        (steve booted)).0
      ≡ ok (connection default_config.default_server (codes "steve") 77 b))
arrival_connected_example =
    arrival_connected (world_outside 1) head_sha files storage bind idle idle_steps new_database
      login_wire (codes "default") 100 (serving default_config) booted (steve booted)
      acknowledgement 77 (codes "steve") serves_default (arrived booted) refl refl refl no_switch
      refl refl
