-- ===== src/Proxy/Whole.antt =====
-- A whole login in src/proxy/client_handler.rs, from the first packet of a connection on, also after
-- a `/server` of the last session.
use steel_proxy.Common.{
  none, ℕ, nat_eq, nat_beq, Text, ◌≡◌, refl, ◌∙◌, true, false, some, Option, List, [], ◌∷◌, Result,
  ok,
}
use steel_proxy.Common.Map.{lookup}
use steel_proxy.Config.Types.{ProxyConfig, BackendServer}
use steel_proxy.External.{External, Reply, answer}
use steel_proxy.World.{World}
use steel_proxy.Proxy.Backends.{get, contains}
use steel_proxy.Proxy.Server.{get_target_server}
use steel_proxy.Proxy.Wire.{Wire, RawPacket, login}
use steel_proxy.Proxy.Session.{S}
use steel_proxy.Proxy.Commands
use steel_proxy.Proxy.Switching.{switch_then_connect}
use steel_proxy.Proxy.Login
use steel_proxy.Proxy.Login.{
  Login, LoginWire, LoginEvent, Next, Greeting, login_finished, packet, others, unwrap_or,
  ClientIntent,
}
use steel_proxy.Proxy.Reconnect.{connection, connected, acknowledged_connects}

-- A login wire on which every answer can be encoded and written.
pub record Answers {E : Type 0} (wire : LoginWire E) : Type 0 where
  pub frame : Greeting → wire.Frame
  pub encoded : (g : Greeting) → wire.encode g ≡ answer (frame g)
  pub sent : (f : wire.Frame) (e : E) → (wire.write_client f e).0 ≡ answer tt

module _ {E : Type 0} (cfg : ProxyConfig) (wire : LoginWire E) (answers : Answers wire) where
  -- The three packets of a login: where the client wants to go, who it is, and that it has seen the
  -- answer.
  pub record IsLogin (first hello last : RawPacket) (username : Text) (uuid : ℕ) : Type 0 where
    pub intent : ClientIntent
    pub first_id : nat_beq first.id wire.ids.handshake_intention ≡ true
    pub first_read : wire.read_intention first.payload ≡ answer intent
    pub wants_login : Login.protocol_for cfg wire intent ≡ login
    pub hello_id : nat_beq hello.id wire.ids.login_hello ≡ true
    pub hello_read : wire.read_hello hello.payload ≡ answer (username, uuid)
    pub not_hello : nat_beq last.id wire.ids.login_hello ≡ false
    pub last_id : nat_beq last.id wire.ids.login_acknowledged ≡ true

  -- The loop after its last packet.
  ends :
      (name username : Text) (uuid : ℕ) (o : Option BackendServer) (r : Result Next) (s : Login E)
      (rest : Login E → Option (Result Next) × Login E)
      → r ≡ connected name username uuid o
      → (Login.after_packet cfg wire r s rest).0 ≡ some (connected name username uuid o)
  ends name username uuid none r s rest e = rw e refl
  ends name username uuid (some b) r s rest e = rw e refl

  -- The world when the client's acknowledgement is read: the answer to Hello was sent, and then the
  -- other tasks did `f`.
  abbrev pub world_then : Text → ℕ → (World E → World E) → World E → World E
  world_then username uuid f w = f (record w {
    ext = (wire.write_client (answers.frame (login_finished uuid username)) w.ext).1;
  })

  abbrev pub target_name : ℕ → World E → Text
  target_name uuid w = unwrap_or (lookup uuid w.pending_switches) cfg.default_server

  -- A new connection that says it wants to log in, says who it is, and acknowledges the answer, on a
  -- wire on which answers can be sent, is connected to the backend of the player's pending switch, or
  -- else to the default server, as the switches and the registry are when the acknowledgement is
  -- read, whatever other tasks did before; if that backend is not registered, the login ends with an
  -- error.
  pub login_loop-connected :
      (first hello last : RawPacket) (username : Text) (uuid : ℕ) (f : World E → World E)
      (rest : List (LoginEvent cfg wire)) (w : World E)
      → IsLogin first hello last username uuid
      → (Login.login_loop cfg wire
          (packet (answer first) ∷ packet (answer hello) ∷ others f ∷ packet (answer last) ∷ rest)
          (Login.begin w)).0
        ≡ some (
            connected (target_name uuid (world_then username uuid f w)) username uuid (
              get
                (world_then username uuid f w).backends
                (target_name uuid (world_then username uuid f w))))
  unfolding Login.login_loop Login.on_packet Login.begin Login.in_handshake Login.in_login
      Login.on_hello Login.send
  login_loop-connected first hello last username uuid f rest w h =
      rw
        (
          h.first_id, h.first_read, h.wants_login, h.hello_id, h.hello_read, answers.encoded,
          answers.sent,
        )
        (ends _ username uuid (get later.backends _) _ _ _ (
          acknowledged_connects cfg wire last acknowledging uuid username refl refl refl h.not_hello
            h.last_id))
    where
      later : World E
      later = world_then username uuid f w

      acknowledging : Login E
      acknowledging = record {
        protocol = login;
        username = some username;
        player_uuid = some uuid;
        sent = login_finished uuid username ∷ [];
        world = later;
      }

module _ (X : External) (head_sha : X.Json → Reply Text) (cfg : ProxyConfig) (wire : Wire X.E)
    (login_wire : LoginWire X.E) (answers : Answers login_wire) where
  -- A player who asked for another backend with `/server` and was sent away, and who opens a new
  -- connection and logs in with the same UUID, on a wire on which answers can be sent, is connected
  -- to that backend, whatever other tasks did in between, if, when the acknowledgement is read, a
  -- backend of that name is registered and the player's pending switch is the one that was left.
  pub switch_then_login :
      (name username : Text) (s : S wire) (b : BackendServer) (first hello last : RawPacket)
      (f : World X.E → World X.E) (rest : List (LoginEvent cfg login_wire)) (w : World X.E)
      → contains s.world.backends name ≡ true
      → IsLogin cfg login_wire answers first hello last username s.player_uuid
      → lookup s.player_uuid
          (world_then cfg login_wire answers username s.player_uuid f w).pending_switches
        ≡ lookup s.player_uuid
            (Commands.switch_server X head_sha cfg wire name s).1.world.pending_switches
      → get (world_then cfg login_wire answers username s.player_uuid f w).backends name ≡ some b
      → (Login.login_loop cfg login_wire
          (packet (answer first) ∷ packet (answer hello) ∷ others f ∷ packet (answer last) ∷ rest)
          (Login.begin w)).0
        ≡ some (ok (connection name username s.player_uuid b))
  unfolding get_target_server
  switch_then_login name username s b first hello last f rest w known in_order left there =
      login_loop-connected cfg login_wire answers first hello last username s.player_uuid f rest w
        in_order
      ∙ rw (left ∙ (switch_then_connect X head_sha cfg wire name s known).0, there) refl
