-- ===== src/Proxy/Wire.antt =====
-- What the proxy takes from the packages steel-protocol, steel-registry and steel-utils: packet
-- numbers, VarInts, the encoding of packets, and the sockets. An `i32` is its bit pattern.
use steel_proxy.Common.{ℕ, Text, Option, List}
use steel_proxy.External.{Reply}

-- steel_protocol's `ConnectionProtocol`, by the states that the program names.
pub data ConnectionProtocol : Type 0 where
  handshake status login config play : ConnectionProtocol

-- steel_registry's numbers of the packets that the program compares or sends.
pub record PacketIds : Type 0 where
  pub handshake_intention : ℕ
  pub status_request : ℕ
  pub status_ping_request : ℕ
  pub login_hello : ℕ
  pub login_acknowledged : ℕ
  pub login_compression : ℕ
  pub login_finished : ℕ
  pub finish_configuration : ℕ
  pub config_transfer : ℕ
  pub chat_command : ℕ
  pub chat_command_signed : ℕ
  pub play_login : ℕ
  pub entity_event : ℕ
  pub play_commands : ℕ
  pub play_transfer : ℕ

-- steel_protocol's `RawPacket`
pub record RawPacket : Type 0 where
  pub id : ℕ
  pub payload : List ℕ

-- What is handed to steel_protocol to be encoded: bytes with a compression threshold, or one of
-- the packets that the program builds, with the protocol that its number is taken from.
pub data Packet (Commands : Type 0) : Type 0 where
  bytes : List ℕ → Option ℕ → Packet Commands
  system_chat : Text → ConnectionProtocol → Packet Commands
  transfer : (id : Option ℕ) → (body : List ℕ) → ConnectionProtocol → Packet Commands
  command_tree : Commands → ConnectionProtocol → Packet Commands

pub record Wire (E : Type 0) : Type 1 where
  pub ids : PacketIds
  -- VarInt(n).write and VarInt::read
  pub write_varint : ℕ → Reply (List ℕ)
  pub read_varint : List ℕ → Reply (ℕ × List ℕ)
  pub Commands : Type 0
  -- EncodedPacket::from_data and from_bare
  pub Frame : Type 0
  pub encode : Packet Commands → Reply Frame
  -- write_packet on the two connections
  pub write_client : Frame → E → Reply (Unit {0}) × E
  pub write_backend : Frame → E → Reply (Unit {0}) × E
