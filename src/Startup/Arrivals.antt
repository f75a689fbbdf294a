-- ===== src/Startup/Arrivals.antt =====
-- A player that comes at some moment after src/main.rs has begun to serve
-- (src/proxy/client_handler.rs).
use steel_proxy.Common.{
  ℕ, nat_eq, nat_beq, Text, text_eq, ◌≡◌, refl, sym, subst, ◌∙◌, Option, none, some, ok, is_some,
  true, false, Option-cases, inl, inr,
}
use steel_proxy.Common.Map.{lookup}
use steel_proxy.Config.Types.{ProxyConfig, BackendServer}
use steel_proxy.Config.Load.{Files}
use steel_proxy.Config.Valid.{load-default_server}
use steel_proxy.External.{External, Reply}
use steel_proxy.World.{World}
use steel_proxy.Db.Init.{Storage}
use steel_proxy.Db.Opened.{KeepsUnique}
use steel_proxy.Proxy.Backends.{BackendRegistry, get}
use steel_proxy.Proxy.Backends
use steel_proxy.Proxy.Login
use steel_proxy.Proxy.Login.{Login, LoginWire, unwrap_or}
use steel_proxy.Proxy.Reconnect.{connection, connected, acknowledged_connects}
use steel_proxy.Proxy.Wire.{RawPacket, login}
use steel_proxy.Startup
use steel_proxy.Startup.{Serving}
use steel_proxy.Startup.Reachable.{Booted, main-Booted}
use steel_proxy.Startup.Sound.{main-IsSound}
use steel_proxy.System.Steps.{Reaches}
use steel_proxy.System.Sound.{IsSound}

-- A backend that the configuration has is found, whatever dynamic backends there are.
found_static :
    (r : BackendRegistry) (name : Text)
    → is_some (get (Backends.new r.static_backends) name) ≡ true
    → is_some (get r name) ≡ true
unfolding get Backends.new lookup
found_static r name h = elim (Option-cases (lookup name r.dynamic_backends)) [
  | inl absent ↦ rw absent h
  | inr (b, there) ↦ rw there refl
]

module _ (X : External) (head_sha : X.Json → Reply Text) (F : Files) (storage : Storage X.E)
    (bind : Text → X.E → Reply (Unit {0}) × X.E) (meanwhile : World X.E → World X.E)
    (are_steps : (w : World X.E) → Reaches w (meanwhile w)) (unique : KeepsUnique storage) where
  default-found :
      (disk : F.Disk) (e : X.E) (s : Serving) (w u : World X.E)
      → Startup.main X head_sha F storage bind meanwhile disk e ≡ ok (s, w)
      → Reaches w u
      → is_some (get u.backends s.config.default_server) ≡ true
  default-found disk e s w u served path =
      go (main-Booted X head_sha F storage bind meanwhile are_steps disk e s w served)
        (main-IsSound X head_sha F storage bind meanwhile disk e s w u are_steps unique served path)
    where
      go :
          Booted X head_sha F storage bind meanwhile are_steps disk e s w
          → IsSound s.config.backends u
          → is_some (get u.backends s.config.default_server) ≡ true
      go b sound = found_static u.backends s.config.default_server (
          subst (λ m. is_some (get (Backends.new m) s.config.default_server) ≡ true)
            (sym sound.unchanged)
            (subst
              (λ (c : ProxyConfig). is_some (get (Backends.new c.backends) c.default_server) ≡ true)
              (sym b.same) (load-default_server F _ disk b.c b.read)))

  connected-some :
      (name username : Text) (uuid : ℕ) (o : Option BackendServer)
      → is_some o ≡ true
      → (b : BackendServer) × (connected name username uuid o
          ≡ ok (connection name username uuid b))
  connected-some name username uuid none h = absurd cc
  connected-some name username uuid (some b) h = (b, refl)

  -- At every moment after the program has come to serve, whichever tasks have acted, a player that
  -- has said who it is, has no pending switch and acknowledges its login is connected to a backend
  -- under the name of the default server, never refused. What the lifecycle loop does before the
  -- port is bound is a path of steps, and a table that the database already has keeps its UNIQUE
  -- constraint.
  pub arrival_connected :
      (login_wire : LoginWire X.E) (disk : F.Disk) (e : X.E) (s : Serving) (w : World X.E)
      (l : Login X.E) (p : RawPacket) (uuid : ℕ) (username : Text)
      → Startup.main X head_sha F storage bind meanwhile disk e ≡ ok (s, w)
      → Reaches w l.world
      → l.protocol ≡ login
      → l.player_uuid ≡ some uuid
      → l.username ≡ some username
      → lookup uuid l.world.pending_switches ≡ none
      → nat_beq p.id login_wire.ids.login_hello ≡ false
      → nat_beq p.id login_wire.ids.login_acknowledged ≡ true
      → (b : BackendServer) × ((Login.on_packet s.config login_wire l.protocol p l).0
          ≡ ok (connection s.config.default_server username uuid b))
  arrival_connected login_wire disk e s w l p uuid username served path in_login known named
        no_switch not_hello ack =
      let (b, same) =
        connected-some s.config.default_server username uuid _
          (default-found disk e s w l.world served path) in
      (
        b,
        acknowledged_connects s.config login_wire p l uuid username in_login known named not_hello
              ack
            ∙ rw no_switch same,
      )
