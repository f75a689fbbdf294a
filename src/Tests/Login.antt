-- ===== src/Tests/Login.antt =====
-- The login of a client and of the proxy at a backend, on concrete inputs.
use steel_proxy.Common.{
  ℕ, Text, nat_eq, text_eq, text_beq, codes, ◌≡◌, ◌≢◌, refl, true, none, some, List, [], ◌∷◌, ok,
  panic,
}
use steel_proxy.Common.Map.{lookup, contains_key}
use steel_proxy.External.{Reply, answer}
use steel_proxy.World.{World}
use steel_proxy.Proxy.Backends.{get, contains}
use steel_proxy.Proxy.Wire.{RawPacket, login}
use steel_proxy.Proxy.Session.{Session}
use steel_proxy.Proxy.Commands.{switch_server}
use steel_proxy.Proxy.Login.{
  Login, LoginWire, login_intent, Greeting, packet, on_packet, login_loop, unwrap_or, begin, others,
}
use steel_proxy.Proxy.Reconnect.{
  connection, connected, acknowledged_connects, acknowledged_unknown_panics,
}
use steel_proxy.Proxy.Whole.{Answers, IsLogin, login_loop-connected, switch_then_login}
use steel_proxy.Proxy.Named.{IsNamed, login_loop-calm}
use steel_proxy.Proxy.Connector.{Dial, negotiate}
use steel_proxy.Proxy.Negotiation.{Settled, negotiate-Settled}
use steel_proxy.Tests.{world_outside, head_sha, proxy_config, wire, ids, lobby}
use steel_proxy.Tests.Proxy.{session}

abbrev pub login_wire : LoginWire ℕ
login_wire = record {
  ids = ids;
  read_intention = λ payload. answer login_intent;
  read_ping = λ payload. answer 0;
  read_hello = λ payload. answer (codes "steve", 77);
  Frame = Greeting;
  encode = answer;
  write_client = λ g e. (answer tt, e);
}

abbrev pub dial : Dial ℕ
dial = record {
  tcp_connect = λ address e. (answer tt, e);
  write_u16 = λ n. answer (n ∷ []);
  write_uuid = λ n. answer (n ∷ []);
  intent_login = 2;
}

-- A player that has said who it is, in a world.
abbrev pub steve : World ℕ → Login ℕ
steve w = record {
  protocol = login;
  username = some (codes "steve");
  player_uuid = some 77;
  sent = [];
  world = w;
}

abbrev stranger : Login ℕ
stranger = record {
  protocol = login;
  username = none;
  player_uuid = none;
  sent = [];
  world = session.world;
}

abbrev pub acknowledgement : RawPacket
acknowledgement = record { id = 3; payload = [] }

acknowledged_connects_example :
    (on_packet proxy_config login_wire login acknowledgement (steve session.world)).0
    ≡ connected
        (unwrap_or (lookup 77 session.world.pending_switches) proxy_config.default_server)
        (codes "steve")
        77
        (get session.world.backends
          (unwrap_or (lookup 77 session.world.pending_switches) proxy_config.default_server))
acknowledged_connects_example =
    acknowledged_connects proxy_config login_wire acknowledgement (steve session.world) 77
      (codes "steve") refl refl refl refl refl

acknowledged_unknown_panics_example :
    (login_loop proxy_config login_wire (packet (answer acknowledgement) ∷ []) stranger).0
    ≡ some panic
acknowledged_unknown_panics_example =
    acknowledged_unknown_panics proxy_config login_wire acknowledgement [] stranger refl refl refl
      refl

lobby_there : contains session.world.backends (codes "lobby") ≡ true
unfolding contains contains_key codes text_beq
lobby_there = refl

-- The world after the player's `/server lobby`.
abbrev switched : World ℕ
switched =
    (switch_server (world_outside 1) head_sha proxy_config wire (codes "lobby") session).1.world

lobby_found : get switched.backends (codes "lobby") ≡ some lobby
unfolding get lookup codes text_beq switch_server contains contains_key
    steel_proxy.Proxy.Commands.send_transfer steel_proxy.Packets.write_transfer
    steel_proxy.Proxy.Session.send_client steel_proxy.Proxy.Server.set_target_server
lobby_found = refl

steve-IsNamed : IsNamed (steve session.world)
steve-IsNamed = record { has_uuid = refl; has_name = refl }

login_loop-calm_example :
    (login_loop proxy_config login_wire
      (packet (answer acknowledgement) ∷ [])
      (steve session.world)).0
    ≢ some panic
login_loop-calm_example =
    login_loop-calm proxy_config login_wire (packet (answer acknowledgement) ∷ [])
      (steve session.world) steve-IsNamed

-- The backend asks for compression from 256 bytes on, and finishes.
abbrev pub backend_packets : List (Reply RawPacket)
backend_packets =
    answer (record { id = 3; payload = 256 ∷ [] }) ∷ answer (record { id = 2; payload = [] }) ∷ []

settled_256 : negotiate wire dial backend_packets none ≡ some (ok (some 256))
unfolding negotiate
settled_256 = refl

negotiate-Settled_example : Settled wire dial (ok (some 256))
negotiate-Settled_example =
    negotiate-Settled wire dial backend_packets none (ok (some 256)) tt settled_256

abbrev greeting_packet : RawPacket
greeting_packet = record { id = 0; payload = [] }

login_wire-Answers : Answers login_wire
login_wire-Answers = record { frame = λ g. g; encoded = λ g. refl; sent = λ g e. refl }

steve-IsLogin :
    IsLogin proxy_config login_wire login_wire-Answers greeting_packet greeting_packet
      acknowledgement
      (codes "steve")
      77
steve-IsLogin = record {
  intent = login_intent;
  first_id = refl;
  first_read = refl;
  wants_login = refl;
  hello_id = refl;
  hello_read = refl;
  not_hello = refl;
  last_id = refl;
}

-- Another task counts its connection while steve logs in.
abbrev counted : World ℕ → World ℕ
counted w = record w { next_client_id = 9 }

abbrev found_target : World ℕ → Text
found_target w = unwrap_or (lookup 77 w.pending_switches) (codes "lobby")

login_loop-connected_example :
    (login_loop proxy_config login_wire
      (packet (answer greeting_packet)
        ∷ packet (answer greeting_packet)
        ∷ others counted
        ∷ packet (answer acknowledgement)
        ∷ [])
      (begin session.world)).0
    ≡ some (
        connected
          (found_target session.world)
          (codes "steve")
          77
          (get session.world.backends (found_target session.world)))
login_loop-connected_example =
    login_loop-connected proxy_config login_wire login_wire-Answers greeting_packet greeting_packet
      acknowledgement (codes "steve") 77 counted [] session.world steve-IsLogin

switch_then_login_example :
    (login_loop proxy_config login_wire
      (packet (answer greeting_packet)
        ∷ packet (answer greeting_packet)
        ∷ others counted
        ∷ packet (answer acknowledgement)
        ∷ [])
      (begin (record switched { next_client_id = 2 }))).0
    ≡ some (ok (connection (codes "lobby") (codes "steve") 77 lobby))
switch_then_login_example =
    switch_then_login (world_outside 1) head_sha proxy_config wire login_wire login_wire-Answers
      (codes "lobby") (codes "steve") session lobby greeting_packet greeting_packet acknowledgement
      counted [] (record switched { next_client_id = 2 }) lobby_there steve-IsLogin refl lobby_found
