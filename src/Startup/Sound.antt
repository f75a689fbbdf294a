-- ===== src/Startup/Sound.antt =====
-- The registry, the tables and the database from the moment at which src/main.rs serves, whichever
-- task acts next.
use steel_proxy.Common.{Text, text_eq, ◌≡◌, refl, sym, subst, ok, arith}
use steel_proxy.Config.Types.{ProxyConfig}
use steel_proxy.Config.Load.{Files}
use steel_proxy.External.{External, Reply}
use steel_proxy.World.{World}
use steel_proxy.Db.Init.{Storage}
use steel_proxy.Db.Opened.{KeepsUnique, init-UniqueRows}
use steel_proxy.Db.Rows.{UniqueRows}
use steel_proxy.Db.Table.{Table}
use steel_proxy.Proxy.Backends.{BackendRegistry, get}
use steel_proxy.Proxy.Backends
use steel_proxy.Proxy.Server.{start}
use steel_proxy.Startup
use steel_proxy.Startup.{Serving}
use steel_proxy.Startup.Reachable.{Booted, main-Booted}
use steel_proxy.System.Steps.{Reaches, Reaches-Preorder}
use steel_proxy.System.Sound.{IsSound, Reaches-IsSound}

module _ (X : External) (head_sha : X.Json → Reply Text) where
  start-IsSound :
      (c : ProxyConfig) (builds : Table) (e : X.E)
      → UniqueRows builds.rows
      → IsSound c.backends (start X head_sha c builds e)
  unfolding start Backends.new
  start-IsSound c builds e u = record {
    unchanged = refl;
    one_backend = tt;
    of_prs = tt;
    one_instance = tt;
    one_row = u;
    counted = ground arith;
  }

  module _ (F : Files) (storage : Storage X.E) (bind : Text → X.E → Reply (Unit {0}) × X.E)
      (meanwhile : World X.E → World X.E) where
    -- If the program comes to serve, then at every moment after that, whichever tasks act in
    -- whichever order: the static backends are those of the configuration, the dynamic ones have
    -- different names, each the name of a PR's backend, no PR has two instances or two rows in the
    -- database, and the counter of clients is a u64. What the lifecycle loop does before the port is
    -- bound is a path of steps, and a table that the database already has keeps its UNIQUE
    -- constraint.
    pub main-IsSound :
        (disk : F.Disk) (e : X.E) (s : Serving) (w u : World X.E)
        → ((w : World X.E) → Reaches w (meanwhile w))
        → KeepsUnique storage
        → Startup.main X head_sha F storage bind meanwhile disk e ≡ ok (s, w)
        → Reaches w u
        → IsSound s.config.backends u
    main-IsSound disk e s w u are_steps unique served path =
        go (main-Booted X head_sha F storage bind meanwhile are_steps disk e s w served)
      where
        go :
            Booted X head_sha F storage bind meanwhile are_steps disk e s w
            → IsSound s.config.backends u
        go b =
            subst (λ (c : ProxyConfig). IsSound c.backends u) (sym b.same)
              (Reaches-IsSound _ u (Reaches-Preorder.joins _ w u b.path path) (
                start-IsSound b.c b.builds b.e'
                  ((init-UniqueRows X storage b.c.database_path unique).at e b.builds b.opened)))
