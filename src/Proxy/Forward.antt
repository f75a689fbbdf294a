-- ===== src/Proxy/Forward.antt =====
-- src/proxy/packet_forwarder.rs: sending a packet on, and reading a command out of one.
use steel_proxy.Common.{
  ℕ, ◌+◌, ◌-◌, ◌^◌, Option, none, some, Text, codes, List, ◌++◌, Result, ok, err, panic, length,
  take, ltb, if◌then◌else◌,
}
use steel_proxy.Common.Utf8.{from_utf8}
use steel_proxy.Common.Exec.{Exec, lift, gets, ◌>>=◌}
use steel_proxy.External.{Reply, answer, refusal}
use steel_proxy.Proxy.Wire.{Wire, Packet, bytes, system_chat, command_tree, RawPacket, play}
use steel_proxy.Proxy.Session.{S, send_client, send_backend}
use steel_proxy.Packets.Tree.{CommandApi, build_commands}

-- `n as usize` for an i32 with the bit pattern `n`: the sign is extended.
unfoldable pub as_usize : ℕ → ℕ
as_usize n = if ltb n (2 ^ 31) then n else n + (2 ^ 64 - 2 ^ 32)

abbrev pub isize_max : ℕ
isize_max = 2 ^ 63 - 1

abbrev utf8_result : Option Text → Result Text
utf8_result none = err (codes "invalid utf-8 sequence")
utf8_result (some s) = ok s

-- `vec![0u8; len]` panics where the capacity overflows; `read_exact` fails on too few bytes.
unfoldable pub read_string : ℕ → List ℕ → Result Text
read_string len rest =
    if ltb isize_max len
    then panic
    else if ltb (length rest) len
    then err (codes "failed to fill whole buffer")
    else utf8_result (from_utf8 (take len rest))

module _ {E : Type 0} (wire : Wire E) where
  abbrev parse_after : Reply (ℕ × List ℕ) → Result Text
  parse_after (answer (n, rest)) = read_string (as_usize n) rest
  parse_after (refusal e) = err e

  unfoldable pub parse_command_from_payload : List ℕ → Result Text
  parse_command_from_payload payload = parse_after (wire.read_varint payload)

  -- The packet's number and payload, with a threshold for compression or none.
  abbrev with_payload : RawPacket → Option ℕ → Reply (List ℕ) → Result (Packet wire.Commands)
  with_payload p threshold (answer id) = ok (bytes (id ++ p.payload) threshold)
  with_payload p threshold (refusal e) = err e

  unfoldable pub reencoded : RawPacket → Option ℕ → Result (Packet wire.Commands)
  reencoded p threshold = with_payload p threshold (wire.write_varint p.id)

  unfoldable pub forward_to_backend : RawPacket → Exec (S wire) (Unit {0})
  forward_to_backend p = do
    threshold ← gets (λ s. s.backend_compression_threshold)
    packet ← lift (reencoded p threshold)
    send_backend wire (some (codes "Failed to send packet to backend")) packet

  unfoldable pub forward_to_client : RawPacket → Exec (S wire) (Unit {0})
  forward_to_client p = do
    packet ← lift (reencoded p none)
    send_client wire (some (codes "Failed to send packet to client")) packet

  unfoldable pub send_system_message : Text → Exec (S wire) (Unit {0})
  send_system_message message = send_client wire none (system_chat message play)

  unfoldable pub send_commands_packet : CommandApi wire.Commands → Exec (S wire) (Unit {0})
  send_commands_packet api = send_client wire none (command_tree (build_commands api) play)
