-- ===== src/Proxy/Transparent.antt =====
-- Packets that the forwarder of src/proxy/packet_forwarder.rs passes on, and the payload of a
-- chat command.
use steel_proxy.Common.{
  ℕ, ◌+◌, ◌-◌, ◌^◌, ◌<◌, ◌≤◌, Text, ◌≡◌, refl, ap, Bool, true, false, List, [], ◌∷◌, ok, panic,
  if◌then◌else◌, ◌++◌, arith, ltb, length, take-append, length-append, ◌&&◌, All, Bool-cases, inl,
  inr, nat_beq,
}
use steel_proxy.Common.Utf8.{as_bytes, from_utf8-as_bytes, IsScalar}
use steel_proxy.Config.Types.{ProxyConfig}
use steel_proxy.External.{External, Reply, answer}
use steel_proxy.Packets.Tree.{CommandApi, build_commands}
use steel_proxy.Proxy.Wire.{Wire, bytes, command_tree, RawPacket, play}
use steel_proxy.Proxy.Session
use steel_proxy.Proxy.Session.{S, sent_to_client, sent_to_backend}
use steel_proxy.Proxy.Forward
use steel_proxy.Proxy.Handlers
use steel_proxy.Proxy.Commands.{continue}

-- The session after the world outside has become `e`.
abbrev pub at_outside : {E : Type 0} (wire : Wire E) → E → S wire → S wire
at_outside wire e s = record s { world = record s.world { ext = e } }

module _ (X : External) (head_sha : X.Json → Reply Text) (cfg : ProxyConfig) (wire : Wire X.E)
    (api : CommandApi wire.Commands) where
  sends_backend :
      (p : RawPacket) (s : S wire) (id : List ℕ) (frame : wire.Frame) (e : X.E)
      → wire.write_varint p.id ≡ answer id
      → wire.encode (bytes (id ++ p.payload) s.backend_compression_threshold) ≡ answer frame
      → wire.write_backend frame s.world.ext ≡ (answer tt, e)
      → Forward.forward_to_backend wire p s ≡ (
        ok tt,
        sent_to_backend wire
            (bytes (id ++ p.payload) s.backend_compression_threshold)
            (at_outside wire e s),
      )
  unfolding Forward.forward_to_backend Forward.reencoded Session.send_backend
  sends_backend p s id frame e number encoded written = rw (number, encoded, written)

  -- A packet of the client that is not a chat command of the play state reaches the backend with
  -- the same number and the same payload, once, compressed as the backend asked, if encoding and
  -- writing succeed; the session follows the protocol and nothing else of it changes.
  pub client_packet_forwarded :
      (p : RawPacket) (s : S wire) (id : List ℕ) (frame : wire.Frame) (e : X.E)
      → (Handlers.is_play s.current_protocol && Handlers.is_chat_command X head_sha cfg wire api p)
        ≡ false
      → wire.write_varint p.id ≡ answer id
      → wire.encode (bytes (id ++ p.payload) s.backend_compression_threshold) ≡ answer frame
      → wire.write_backend frame s.world.ext ≡ (answer tt, e)
      → Handlers.handle_client_packet X head_sha cfg wire api p s ≡ (
        ok continue,
        sent_to_backend wire
            (bytes (id ++ p.payload) s.backend_compression_threshold)
            (at_outside wire e (Handlers.follow_protocol X head_sha cfg wire api p s)),
      )
  unfolding Handlers.handle_client_packet Handlers.pass_on Handlers.follow_protocol
  client_packet_forwarded p s id frame e plain number encoded written =
      elim (Bool-cases (nat_beq p.id wire.ids.finish_configuration)) [
        | inl last ↦ rw (
          plain,
          last,
          sends_backend p (record s { current_protocol = play }) id frame e number encoded written,
        )
        | inr not_last ↦ rw (plain, not_last, sends_backend p s id frame e number encoded written)
      ]

  chosen :
      (a b c : Bool) (x y s : S wire)
      → (if a then false else if b then false else c) ≡ true
      → (if a then x else if b then y else s) ≡ s
  chosen true b c x y s h = absurd (ground arith)
  chosen false true c x y s h = absurd (ground arith)
  chosen false false c x y s h = refl

  observe-commands :
      (p : RawPacket) (s : S wire)
      → Handlers.is_commands X head_sha cfg wire api p ≡ true
      → Handlers.observe X head_sha cfg wire api p s ≡ s
  unfolding Handlers.observe
  observe-commands p s h =
      chosen (nat_beq p.id wire.ids.play_login) (nat_beq p.id wire.ids.entity_event)
        (nat_beq p.id wire.ids.play_commands)
        (Handlers.see_login X head_sha cfg wire api (Handlers.login_entity p.payload) s)
        (Handlers.see_event X head_sha cfg wire api (Handlers.entity_event p.payload) s) s h

  -- In the play state a Commands packet of the backend is answered by one packet to the client, the
  -- proxy's own tree, if encoding and writing succeed.
  commands_replaced :
      (p : RawPacket) (s : S wire) (frame : wire.Frame) (e : X.E)
      → s.current_protocol ≡ play
      → Handlers.is_commands X head_sha cfg wire api p ≡ true
      → wire.encode (command_tree (build_commands api) play) ≡ answer frame
      → wire.write_client frame s.world.ext ≡ (answer tt, e)
      → (Handlers.handle_backend_packet X head_sha cfg wire api p s).1.to_client
        ≡ s.to_client ++ command_tree (build_commands api) play ∷ []
  unfolding Handlers.handle_backend_packet Forward.send_commands_packet Session.send_client
  commands_replaced p s frame e in_play replaced encoded written =
      rw (ap Handlers.is_play in_play, replaced, observe-commands p s replaced, encoded, written)
        refl

  read_string-append :
      (command : Text) (rest : List ℕ)
      → All IsScalar command
      → length (as_bytes command) < 2 ^ 31
      → Forward.read_string
          (Forward.as_usize (length (as_bytes command)))
          (as_bytes command ++ rest)
        ≡ ok command
  unfolding Forward.read_string Forward.as_usize
  read_string-append command rest scalars short =
      rw (positive, small, enough, take-append, from_utf8-as_bytes command scalars)
    where
      n : ℕ
      n = length (as_bytes command)

      positive : ltb n (2 ^ 31) ≡ true
      positive = ground arith

      small : ltb Forward.isize_max n ≡ false
      small = ground arith

      enough : ltb (length (as_bytes command ++ rest)) n ≡ false
      enough = ground (arith, length-append (as_bytes command) rest)

  -- A command of Unicode scalar values, written as the length of its UTF-8 text, which is below
  -- 2^31, and the text, is read back, whatever follows it, if `VarInt::read` gives back the length.
  pub parse_command_round_trip :
      (command : Text) (prefix rest : List ℕ)
      → All IsScalar command
      → length (as_bytes command) < 2 ^ 31
      → ((after : List ℕ)
          → wire.read_varint (prefix ++ after) ≡ answer (length (as_bytes command), after))
      → Forward.parse_command_from_payload wire (prefix ++ (as_bytes command ++ rest)) ≡ ok command
  unfolding Forward.parse_command_from_payload
  parse_command_round_trip command prefix rest scalars short law =
      rw (law (as_bytes command ++ rest)) (read_string-append command rest scalars short)

  -- A chat command of the play state whose VarInt length is negative makes the task of the
  -- connection panic.
  pub negative_length_panics :
      (p : RawPacket) (s : S wire) (len : ℕ) (rest : List ℕ)
      → (Handlers.is_play s.current_protocol && Handlers.is_chat_command X head_sha cfg wire api p)
        ≡ true
      → wire.read_varint p.payload ≡ answer (len, rest)
      → 2 ^ 31 ≤ len
      → Handlers.handle_client_packet X head_sha cfg wire api p s ≡ (panic, s)
  unfolding Handlers.handle_client_packet Forward.parse_command_from_payload Forward.read_string
      Forward.as_usize Handlers.on_command
  negative_length_panics p s len rest chat read negative = rw (chat, read, not_below, beyond)
    where
      not_below : ltb len (2 ^ 31) ≡ false
      not_below = ground arith

      beyond : ltb Forward.isize_max (len + (2 ^ 64 - 2 ^ 32)) ≡ true
      beyond = ground arith
