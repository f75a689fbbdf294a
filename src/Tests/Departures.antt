-- ===== src/Tests/Departures.antt =====
-- A session that ends with a switch to another server, and one that the client leaves.
use steel_proxy.Common.{
  ℕ, Text, text_beq, codes, ◌≡◌, refl, true, none, some, List, [], ◌∷◌, ◌++◌, ok, inl, Result, map,
}
use steel_proxy.Common.Map.{contains_key}
use steel_proxy.External.{answer, refusal}
use steel_proxy.Proxy.Wire.{RawPacket, bytes}
use steel_proxy.Proxy.Session.{Session}
use steel_proxy.Proxy.Commands.{classify, server}
use steel_proxy.Proxy.Backends.{contains}
use steel_proxy.Proxy.Forward.{parse_command_from_payload}
use steel_proxy.Proxy.Loop.{Event, run, from_client, from_backend, timer}
use steel_proxy.Proxy.Drains.{Drains}
use steel_proxy.Proxy.Departures.{IsSwitch, transfer_packet, run-Drains}
use steel_proxy.Proxy.Readers.{reader, client_channel, Delivers, run-Delivers}
use steel_proxy.Tests.{world_outside, head_sha, proxy_config, wire, command_api}
use steel_proxy.Tests.Proxy.{session}
use steel_proxy.Tests.Relay.{wire-Works}

abbrev earlier : List (Event ℕ)
earlier = from_client (answer (record { id = 7; payload = 1 ∷ [] })) ∷ []

abbrev later : List (Event ℕ)
later =
    from_backend (answer (record { id = 9; payload = 4 ∷ [] }))
    ∷ from_client (answer (record { id = 7; payload = 2 ∷ [] }))
    ∷ timer
    ∷ from_backend (answer (record { id = 9; payload = 5 ∷ [] }))
    ∷ []

abbrev departure : RawPacket
departure = record { id = 5; payload = 12 ∷ codes "server lobby" }

abbrev reached : Session ℕ (Unit {0})
reached = (run (world_outside 1) head_sha proxy_config wire command_api earlier session).1

departure-text : parse_command_from_payload wire departure.payload ≡ ok (codes "server lobby")
unfolding parse_command_from_payload steel_proxy.Proxy.Forward.read_string
    steel_proxy.Proxy.Forward.as_usize codes steel_proxy.Common.Utf8.from_utf8
departure-text = refl

to_lobby : classify (codes "server lobby") ≡ server (codes "lobby")
unfolding classify codes steel_proxy.Common.strip_prefix steel_proxy.Common.trim text_beq
    steel_proxy.Common.trim_start steel_proxy.Common.is_whitespace
to_lobby = refl

reached_known : contains reached.world.backends (codes "lobby") ≡ true
unfolding contains contains_key codes text_beq run steel_proxy.Proxy.Handlers.handle_client_packet
    steel_proxy.Proxy.Handlers.pass_on steel_proxy.Proxy.Forward.forward_to_backend
    steel_proxy.Proxy.Forward.reencoded steel_proxy.Proxy.Session.send_backend
reached_known = refl

departure-IsSwitch :
    IsSwitch
      (world_outside 1)
      head_sha
      proxy_config
      wire
      command_api
      wire-Works
      departure
      (codes "server lobby")
      (codes "lobby")
      reached
unfolding run steel_proxy.Proxy.Handlers.handle_client_packet steel_proxy.Proxy.Handlers.pass_on
    steel_proxy.Proxy.Forward.forward_to_backend steel_proxy.Proxy.Forward.reencoded
    steel_proxy.Proxy.Session.send_backend
departure-IsSwitch = record {
  in_play = refl;
  chat = refl;
  parsed = departure-text;
  meant = to_lobby;
  known = reached_known;
}

run-Drains_example :
    Drains
      (world_outside 1)
      head_sha
      proxy_config
      wire
      command_api
      wire-Works
      (run
        (world_outside 1)
        head_sha
        proxy_config
        wire
        command_api
        (earlier ++ (from_client (answer departure) ∷ later))
        session)
      session
      true
      (bytes (7 ∷ 1 ∷ []) (some 256) ∷ [])
      (transfer_packet (world_outside 1) head_sha proxy_config wire command_api wire-Works
        ∷ bytes (9 ∷ 4 ∷ []) none
        ∷ [])
run-Drains_example =
    run-Drains (world_outside 1) head_sha proxy_config wire command_api wire-Works earlier later
      departure (codes "server lobby") (codes "lobby") session (inl refl, tt) departure-IsSwitch

-- The client sends two packets and is gone; between them the backend sends one.
abbrev visit : List (Event ℕ)
visit =
    from_client (answer (record { id = 7; payload = 1 ∷ [] }))
    ∷ from_backend (answer (record { id = 9; payload = 4 ∷ [] }))
    ∷ from_client (answer (record { id = 7; payload = 2 ∷ [] }))
    ∷ from_client (refusal (codes "eof"))
    ∷ timer
    ∷ []

abbrev sent : List RawPacket
sent = record { id = 7; payload = 1 ∷ [] } ∷ record { id = 7; payload = 2 ∷ [] } ∷ []

all_taken :
    client_channel (world_outside 1) head_sha proxy_config wire command_api visit
    ≡ reader (map answer sent ++ (refusal (codes "eof") ∷ []))
unfolding reader
all_taken = refl

run-Delivers_example :
    Delivers
      (world_outside 1)
      head_sha
      proxy_config
      wire
      command_api
      wire-Works
      (run (world_outside 1) head_sha proxy_config wire command_api visit session)
      session
      (bytes (7 ∷ 1 ∷ []) (some 256) ∷ bytes (7 ∷ 2 ∷ []) (some 256) ∷ [])
run-Delivers_example =
    run-Delivers (world_outside 1) head_sha proxy_config wire command_api wire-Works visit sent
      (codes "eof") [] session (inl refl, (tt, (inl refl, (tt, (tt, tt))))) all_taken
