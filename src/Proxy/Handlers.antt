-- ===== src/Proxy/Handlers.antt =====
-- src/proxy/packet_forwarder.rs: `handle_client_packet` and `handle_backend_packet`.
use steel_proxy.Common.{
  ℕ, ◌+◌, ◌-◌, ◌*◌, Bool, true, false, ◌||◌, ◌&&◌, Option, none, some, Text, List, [], ◌∷◌, Result,
  ok, err, panic, if◌then◌else◌, nat_beq, leb,
}
use steel_proxy.Common.Exec.{Exec, pure, unwind, gets, modify, ◌>>=◌, ◌>>◌}
use steel_proxy.Config.Types.{ProxyConfig}
use steel_proxy.External.{External, Reply}
use steel_proxy.Packets.Tree.{CommandApi}
use steel_proxy.Proxy.Wire.{
  Wire, ConnectionProtocol, handshake, status, login, config, play, RawPacket,
}
use steel_proxy.Proxy.Session.{S}
use steel_proxy.Proxy.Forward.{
  parse_command_from_payload, forward_to_backend, forward_to_client, send_commands_packet,
}
use steel_proxy.Proxy.Commands.{
  Action, continue, ChatCommand, list, other, classify, list_servers, switch_server,
  handle_start_command, handle_status_command,
}

abbrev pub is_play : ConnectionProtocol → Bool
is_play play = true
is_play handshake = false
is_play status = false
is_play login = false
is_play config = false

-- i32::from_be_bytes, as a bit pattern
abbrev pub be_i32 : (a b c d : ℕ) → ℕ
be_i32 a b c d = a * 16777216 + b * 65536 + c * 256 + d

-- The entity id of a Login packet: its first four bytes.
unfoldable pub login_entity : List ℕ → Option ℕ
login_entity (a ∷ b ∷ c ∷ d ∷ rest) = some (be_i32 a b c d)
login_entity (a ∷ b ∷ c ∷ []) = none
login_entity (a ∷ b ∷ []) = none
login_entity (a ∷ []) = none
login_entity [] = none

-- The entity id and the status byte of an Entity Event packet.
unfoldable pub entity_event : List ℕ → Option (ℕ × ℕ)
entity_event (a ∷ b ∷ c ∷ d ∷ s ∷ rest) = some (be_i32 a b c d, s)
entity_event (a ∷ b ∷ c ∷ d ∷ []) = none
entity_event (a ∷ b ∷ c ∷ []) = none
entity_event (a ∷ b ∷ []) = none
entity_event (a ∷ []) = none
entity_event [] = none

module _ (X : External) (head_sha : X.Json → Reply Text) (cfg : ProxyConfig) (wire : Wire X.E)
    (api : CommandApi wire.Commands) where
  -- The end of `handle_client_packet`: follow the protocol, and send the packet on.
  unfoldable pub follow_protocol : RawPacket → S wire → S wire
  follow_protocol p s =
      if nat_beq p.id wire.ids.finish_configuration then record s { current_protocol = play } else s

  unfoldable pub pass_on : RawPacket → Exec (S wire) Action
  unfolding follow_protocol
  pass_on p = do modify (follow_protocol p); forward_to_backend wire p; pure continue

  unfoldable pub run_command : RawPacket → ChatCommand → Exec (S wire) Action
  run_command p list = do list_servers X head_sha cfg wire; pure continue
  run_command p (ChatCommand.server name) = switch_server X head_sha cfg wire name
  run_command p (ChatCommand.start arg) = do
    handle_start_command X head_sha cfg wire arg
    pure continue
  run_command p (ChatCommand.status arg) = do
    handle_status_command X head_sha cfg wire arg
    pure continue
  run_command p other = pass_on p

  -- A payload that is no text is sent on like any other packet.
  unfoldable pub on_command : RawPacket → Result Text → Exec (S wire) Action
  unfolding run_command
  on_command p (ok command) = run_command p (classify command)
  on_command p (err e) = pass_on p
  on_command p panic = unwind

  abbrev pub is_chat_command : RawPacket → Bool
  is_chat_command p =
      nat_beq p.id wire.ids.chat_command || nat_beq p.id wire.ids.chat_command_signed

  unfoldable pub handle_client_packet : RawPacket → Exec (S wire) Action
  unfolding on_command
  handle_client_packet p = do
    protocol ← gets (λ s. s.current_protocol)
    if is_play protocol && is_chat_command p
        then on_command p (parse_command_from_payload wire p.payload)
        else pass_on p

  abbrev pub see_login : Option ℕ → S wire → S wire
  see_login none s = s
  see_login (some id) s = record s { entity_id = some id }

  abbrev is_own : Option ℕ → ℕ → Bool
  is_own none id = false
  is_own (some own) id = nat_beq own id

  -- Status 24 to 28 is the permission level 0 to 4 of an entity.
  abbrev pub see_event : Option (ℕ × ℕ) → S wire → S wire
  see_event none s = s
  see_event (some (id, status_byte)) s =
      if is_own s.entity_id id && (leb 24 status_byte && leb status_byte 28)
      then record s { permission_level = status_byte - 24 }
      else s

  -- What the proxy learns from a packet of the backend in the play state.
  unfoldable pub observe : RawPacket → S wire → S wire
  unfolding login_entity entity_event
  observe p s =
      if nat_beq p.id wire.ids.play_login
      then see_login (login_entity p.payload) s
      else if nat_beq p.id wire.ids.entity_event
      then see_event (entity_event p.payload) s
      else s

  -- The Commands packet is replaced, if its number is not that of the two above.
  abbrev pub is_commands : RawPacket → Bool
  is_commands p =
      if nat_beq p.id wire.ids.play_login
      then false
      else if nat_beq p.id wire.ids.entity_event
      then false
      else nat_beq p.id wire.ids.play_commands

  unfoldable pub handle_backend_packet : RawPacket → Exec (S wire) (Unit {0})
  unfolding observe
  handle_backend_packet p = do
    protocol ← gets (λ s. s.current_protocol)
    if is_play protocol
        then (do
          modify (observe p)
          if is_commands p then send_commands_packet wire api else forward_to_client wire p)
        else forward_to_client wire p
