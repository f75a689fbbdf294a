-- ===== src/Proxy/Reconnect.antt =====
-- A client that acknowledges its login in src/proxy/client_handler.rs: where it is connected,
-- by its pending switch or without one.
use steel_proxy.Common.{
  ℕ, nat_eq, nat_beq, Text, text_eq, ◌≡◌, refl, ap, ◌∙◌, true, false, Option, none, some, List, ◌∷◌,
  Result, ok, err, panic, codes,
}
use steel_proxy.Common.Exec.{pure, lift, gets, ◌>>=◌}
use steel_proxy.Common.Map.{lookup, remove}
use steel_proxy.Config.Types.{ProxyConfig, BackendServer}
use steel_proxy.External.{answer}
use steel_proxy.Proxy.Backends.{get}
use steel_proxy.Proxy.Server.{get_target_server}
use steel_proxy.Proxy.Wire.{RawPacket, login, config}
use steel_proxy.Proxy.Login
use steel_proxy.Proxy.Login.{Login, LoginWire, Next, connects, Target, packet, unwrap_or}

-- The connection to a backend that a client is given.
abbrev pub connection : Text → Text → ℕ → BackendServer → Next
connection name username uuid b = connects (record {
  backend_name = name;
  address = b.address;
  port = b.port;
  username = username;
  uuid = uuid;
})

abbrev pub connected : Text → Text → ℕ → Option BackendServer → Result Next
connected name username uuid none = err (codes "Backend server not found")
connected name username uuid (some b) = ok (connection name username uuid b)

module _ {E : Type 0} (cfg : ProxyConfig) (wire : LoginWire E) where
  found-connected :
      (name username : Text) (uuid : ℕ) (o : Option BackendServer) (s : Login E)
      → s.username ≡ some username
      → ((do
        backend ← lift (Login.found_backend o)
        maybe_username ← gets (λ (t : Login E). t.username)
        u ← lift (Login.unwrap maybe_username)
        pure (connection name u uuid backend))
          s).0
        ≡ connected name username uuid o
  found-connected name username uuid none s named = refl
  found-connected name username uuid (some b) s named = rw named refl

  in_login-connected :
      (p : RawPacket) (s : Login E) (uuid : ℕ) (username : Text)
      → s.player_uuid ≡ some uuid
      → s.username ≡ some username
      → nat_beq p.id wire.ids.login_hello ≡ false
      → nat_beq p.id wire.ids.login_acknowledged ≡ true
      → (Login.in_login cfg wire p s).0
        ≡ connected
            (unwrap_or (lookup uuid s.world.pending_switches) cfg.default_server)
            username
            uuid
            (get s.world.backends
              (unwrap_or (lookup uuid s.world.pending_switches) cfg.default_server))
  unfolding Login.in_login Login.on_acknowledged get_target_server
  in_login-connected p s uuid username known named not_hello ack =
      rw (not_hello, ack, known)
        (found-connected (unwrap_or (lookup uuid s.world.pending_switches) cfg.default_server)
          username uuid
          (get s.world.backends
            (unwrap_or (lookup uuid s.world.pending_switches) cfg.default_server))
          (record s {
            protocol = config;
            player_uuid = some uuid;
            world = record s.world { pending_switches = remove uuid s.world.pending_switches };
          })
          named)

  -- A client with a name and a UUID that acknowledges its login is connected to the backend of its
  -- pending switch, or else to the default server; if that backend is not registered, the answer is
  -- an error.
  pub acknowledged_connects :
      (p : RawPacket) (s : Login E) (uuid : ℕ) (username : Text)
      → s.protocol ≡ login
      → s.player_uuid ≡ some uuid
      → s.username ≡ some username
      → nat_beq p.id wire.ids.login_hello ≡ false
      → nat_beq p.id wire.ids.login_acknowledged ≡ true
      → (Login.on_packet cfg wire s.protocol p s).0
        ≡ connected
            (unwrap_or (lookup uuid s.world.pending_switches) cfg.default_server)
            username
            uuid
            (get s.world.backends
              (unwrap_or (lookup uuid s.world.pending_switches) cfg.default_server))
  unfolding Login.on_packet
  acknowledged_connects p s uuid username in_login known named not_hello ack =
      ap (λ c. (Login.on_packet cfg wire c p s).0) in_login
      ∙ in_login-connected p s uuid username known named not_hello ack

  -- A client in the login state that acknowledges before it has said who it is makes its task panic.
  pub acknowledged_unknown_panics :
      (p : RawPacket) (events : List (Login.LoginEvent cfg wire)) (s : Login E)
      → s.protocol ≡ login
      → s.player_uuid ≡ none
      → nat_beq p.id wire.ids.login_hello ≡ false
      → nat_beq p.id wire.ids.login_acknowledged ≡ true
      → (Login.login_loop cfg wire (packet (answer p) ∷ events) s).0 ≡ some panic
  unfolding Login.login_loop Login.on_packet Login.in_login Login.on_acknowledged
  acknowledged_unknown_panics p events s in_login unknown not_hello ack =
      rw (in_login, not_hello, ack, unknown) refl
