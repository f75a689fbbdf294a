-- ===== src/Tests/Proxy.antt =====
-- The proxy's sessions and starts on concrete inputs.
use steel_proxy.Common.{
  ℕ, ◌≤◌, ◌<◌, nat_eq, panic, show, parse_u32, text_beq, text_eq, Text, codes, ◌≡◌, ◌≢◌, refl, sym,
  ◌∙◌, Bool, true, false, arith, Option, none, some, List, [], ◌∷◌, ◌++◌, Result, ok, err, inl, inr,
  ◌⊎◌, if◌then◌else◌,
}
use steel_proxy.Common.Map.{lookup, contains_key, UniqueKeys}
use steel_proxy.Common.Utf8.{as_bytes}
use steel_proxy.External.{answer}
use steel_proxy.World.{World}
use steel_proxy.K8s.Instance.{deploying}
use steel_proxy.K8s.Instances.{has_instance, backend_name}
use steel_proxy.K8s.Machine.{shared}
use steel_proxy.K8s.Rounds.{IsValid}
use steel_proxy.Proxy.Server.{start_pr, get_target_server}
use steel_proxy.Proxy.Start.{Started, start_pr-Started, start_pr_taken, start_pr-IsValid}
use steel_proxy.Proxy.Wire.{RawPacket, play, bytes}
use steel_proxy.Proxy.Session.{Session, sent_to_backend}
use steel_proxy.Proxy.Forward.{parse_command_from_payload}
use steel_proxy.Proxy.Commands.{
  ChatCommand, switch_server, continue, disconnect, classify, server, other,
}
use steel_proxy.Proxy.Handlers.{handle_client_packet, follow_protocol}
use steel_proxy.Proxy.Intercepts.{own_command_intercepted}
use steel_proxy.Proxy.Backends.{contains}
use steel_proxy.Proxy.Loop.{run, from_client}
use steel_proxy.Proxy.Permissions.{run-permission_level}
use steel_proxy.Proxy.Switching.{switch_then_connect, switch_unknown}
use steel_proxy.Proxy.Transparent.{
  at_outside, client_packet_forwarded, parse_command_round_trip, negative_length_panics,
}
use steel_proxy.Proxy.Reading.{command_words_read}
use steel_proxy.Tests.{world_outside, head_sha, proxy_config, wire, command_api, lobby}

-- PR 7 is being deployed.
abbrev pub world : World ℕ
world = record {
  backends = record { static_backends = (codes "lobby", lobby) ∷ []; dynamic_backends = [] };
  next_client_id = 0;
  pending_switches = [];
  broadcasts = [];
  instances =
      (
        7,
        record {
          pr_number = 7;
          commit_hash = codes "fedcba9876543210";
          commit_hash_short = codes "fedcba9";
          state = deploying (codes "pr-7-fedcba9");
        },
      )
      ∷ [];
  builds = record { rows = [] };
  ext = 100;
}

world-IsValid : IsValid world
unfolding steel_proxy.Common.Map.lookup steel_proxy.Common.Map.contains_key
world-IsValid = record { unique = (refl, tt); consistent = record { backed = λ j. ground arith } }

start_pr-Started_example :
    Started 8 (shared world) (start_pr (world_outside 1) head_sha proxy_config 8 world)
start_pr-Started_example = start_pr-Started (world_outside 1) head_sha proxy_config 8 world

pr_7_taken : has_instance 7 world ≡ true
unfolding has_instance steel_proxy.Common.Map.contains_key
pr_7_taken = refl

start_pr_taken_example :
    (e : Text) × (start_pr (world_outside 1) head_sha proxy_config 7 world ≡ (err e, world))
start_pr_taken_example =
    start_pr_taken (world_outside 1) head_sha proxy_config 7 world (inl pr_7_taken)

start_pr-IsValid_example : IsValid (start_pr (world_outside 1) head_sha proxy_config 8 world).1
start_pr-IsValid_example =
    start_pr-IsValid (world_outside 1) head_sha proxy_config 8 world world-IsValid

abbrev pub session : Session ℕ (Unit {0})
session = record {
  client_id = 1;
  player_uuid = 77;
  current_backend = codes "lobby";
  current_protocol = play;
  backend_compression_threshold = some 256;
  permission_level = 4;
  entity_id = some 5;
  to_client = [];
  to_backend = [];
  world = world;
}

abbrev command_packet : RawPacket
command_packet = record { id = 5; payload = 10 ∷ codes "server hub" }

command_packet-text :
    parse_command_from_payload wire command_packet.payload ≡ ok (codes "server hub")
unfolding parse_command_from_payload steel_proxy.Proxy.Forward.read_string
    steel_proxy.Proxy.Forward.as_usize codes steel_proxy.Common.Utf8.from_utf8
command_packet-text = refl

server_hub : classify (codes "server hub") ≡ server (codes "hub")
unfolding classify codes steel_proxy.Common.strip_prefix steel_proxy.Common.trim
    steel_proxy.Common.text_beq steel_proxy.Common.trim_start steel_proxy.Common.is_whitespace
server_hub = refl

server-other : (t : Text) → server t ≢ other
server-other t e = cc

command_packet_own : classify (codes "server hub") ≢ other
command_packet_own e = server-other _ (sym server_hub ∙ e)

own_command_intercepted_example :
    (handle_client_packet
      (world_outside 1)
      head_sha
      proxy_config
      wire
      command_api
      command_packet
      session).1.to_backend
    ≡ []
own_command_intercepted_example =
    own_command_intercepted (world_outside 1) head_sha proxy_config wire command_api command_packet
      session (codes "server hub") refl refl command_packet-text command_packet_own

run-permission_level_example :
    (run
      (world_outside 1)
      head_sha
      proxy_config
      wire
      command_api
      (from_client (answer command_packet) ∷ [])
      session).1.permission_level
    ≤ 4
run-permission_level_example =
    run-permission_level (world_outside 1) head_sha proxy_config wire command_api
      (from_client (answer command_packet) ∷ []) session (omega arith)

lobby_known : contains world.backends (codes "lobby") ≡ true
unfolding contains contains_key codes text_beq
lobby_known = refl

hub_unknown : contains world.backends (codes "hub") ≡ false
unfolding contains contains_key codes text_beq
hub_unknown = refl

abbrev switched : Text → World ℕ
switched name = (switch_server (world_outside 1) head_sha proxy_config wire name session).1.world

switch_then_connect_example :
    ((get_target_server 77 (switched (codes "lobby"))).0 ≡ some (codes "lobby"))
    × ((get_target_server 77 (get_target_server 77 (switched (codes "lobby"))).1).0 ≡ none)
switch_then_connect_example =
    switch_then_connect (world_outside 1) head_sha proxy_config wire (codes "lobby") session
      lobby_known

switch_unknown_example :
    ((switch_server (world_outside 1) head_sha proxy_config wire (codes "hub") session).0
      ≢ ok disconnect)
    × ((switched (codes "hub")).pending_switches ≡ [])
switch_unknown_example =
    switch_unknown (world_outside 1) head_sha proxy_config wire (codes "hub") session hub_unknown

abbrev chat_packet : RawPacket
chat_packet = record { id = 7; payload = 1 ∷ 2 ∷ 3 ∷ [] }

client_packet_forwarded_example :
    handle_client_packet
      (world_outside 1)
      head_sha
      proxy_config
      wire
      command_api
      chat_packet
      session
    ≡ (
      ok continue,
      sent_to_backend wire (bytes (7 ∷ 1 ∷ 2 ∷ 3 ∷ []) (some 256)) (
          at_outside wire 100 (
            follow_protocol
              (world_outside 1)
              head_sha
              proxy_config
              wire
              command_api
              chat_packet
              session)),
    )
client_packet_forwarded_example =
    client_packet_forwarded (world_outside 1) head_sha proxy_config wire command_api chat_packet
      session (7 ∷ []) (bytes (7 ∷ 1 ∷ 2 ∷ 3 ∷ []) (some 256)) 100 refl refl refl refl

parse_command_round_trip_example :
    parse_command_from_payload wire (2 ∷ (as_bytes (104 ∷ 105 ∷ []) ++ 0 ∷ []))
    ≡ ok (104 ∷ 105 ∷ [])
unfolding as_bytes
parse_command_round_trip_example =
    parse_command_round_trip (world_outside 1) head_sha proxy_config wire command_api
      (104 ∷ 105 ∷ []) (2 ∷ []) (0 ∷ []) (ground arith) (omega arith) (λ after. refl)

abbrev negative_packet : RawPacket
negative_packet = record { id = 5; payload = 4294967295 ∷ [] }

negative_length_panics_example :
    handle_client_packet
      (world_outside 1)
      head_sha
      proxy_config
      wire
      command_api
      negative_packet
      session
    ≡ (panic, session)
negative_length_panics_example =
    negative_length_panics (world_outside 1) head_sha proxy_config wire command_api negative_packet
      session 4294967295 [] refl refl (omega arith)

command_words_read_example :
    (classify (codes "start " ++ show 42) ≡ ChatCommand.start (show 42))
    × (classify (codes "status " ++ show 42) ≡ ChatCommand.status (show 42))
    × (classify (codes "server " ++ backend_name 42) ≡ server (backend_name 42))
    × (parse_u32 (show 42) ≡ some 42)
command_words_read_example = command_words_read 42 (omega arith)
