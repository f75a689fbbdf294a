-- ===== src/Packets.antt =====
-- src/packets.rs: the Transfer packet and the tree of the proxy's commands.
pub mod Tree
use steel_proxy.Common.{
  ℕ, Text, Option, none, some, List, ◌++◌, length, ◌%◌, ◌^◌, Result, ok, err, codes,
}
use steel_proxy.Common.Utf8.{as_bytes}
use steel_proxy.External.{Reply, answer, refusal}
use steel_proxy.Proxy.Wire.{
  Wire, PacketIds, Packet, transfer, ConnectionProtocol, config, play, handshake, status, login,
}

pub record CTransfer : Type 0 where
  pub host : Text
  pub port : ℕ  -- i32

unfoldable pub new : Text → ℕ → CTransfer
new host port = record { host = host; port = port }

-- One write after another, each with `?`.
abbrev pub append_reply : Reply (List ℕ) → Reply (List ℕ) → Reply (List ℕ)
append_reply (answer a) (answer b) = answer (a ++ b)
append_reply (answer a) (refusal e) = refusal e
append_reply (refusal e) r = refusal e

module _ {E : Type 0} (wire : Wire E) where
  -- `WriteTo for CTransfer`: the host's length and bytes, and the port.
  unfoldable pub write_transfer : CTransfer → Reply (List ℕ)
  write_transfer p =
      append_reply (wire.write_varint (length (as_bytes p.host) % 2 ^ 32))
        (append_reply (answer (as_bytes p.host)) (wire.write_varint p.port))

-- `get_id`
unfoldable pub transfer_id : PacketIds → ConnectionProtocol → Option ℕ
transfer_id ids config = some ids.config_transfer
transfer_id ids play = some ids.play_transfer
transfer_id ids handshake = none
transfer_id ids status = none
transfer_id ids login = none
