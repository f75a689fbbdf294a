-- ===== src/Proxy/Departures.antt =====
-- A whole session of src/proxy/packet_forwarder.rs that ends with `/server` and a known name.
use mathlib.Core.List.{append_assoc, append-nil}
use steel_proxy.Common.{
  Text, ◌≡◌, refl, ap, ◌∙◌, some, length, ◌%◌, ◌^◌, true, none, List, [], ◌∷◌, ◌++◌, All, ok,
}
use steel_proxy.Common.Utf8.{as_bytes}
use steel_proxy.Config.Types.{ProxyConfig}
use steel_proxy.External.{External, Reply, answer, refusal}
use steel_proxy.Packets
use steel_proxy.Packets.Tree.{CommandApi}
use steel_proxy.Proxy.Backends.{contains}
use steel_proxy.Proxy.Server.{set_target_server}
use steel_proxy.Proxy.Wire.{Wire, RawPacket, Packet, transfer, play}
use steel_proxy.Proxy.Session.{S}
use steel_proxy.Proxy.Forward.{parse_command_from_payload}
use steel_proxy.Proxy.Commands
use steel_proxy.Proxy.Commands.{Action, continue, disconnect, classify, server}
use steel_proxy.Proxy.Handlers
use steel_proxy.Proxy.Loop
use steel_proxy.Proxy.Loop.{
  Event, from_backend, from_client, from_broadcast, timer, all_closed, elsewhere, Ended,
}
use steel_proxy.Proxy.Relay.{Works, IsPlain, for_backend, for_client}
use steel_proxy.Proxy.Sends.{Sends, Sends-from, then-Sends, send_client-Sends}
use steel_proxy.Proxy.Passes.{client_packet-Sends, backend_packet-Sends}
use steel_proxy.Proxy.Relayed.{Relays, run-Relays}
use steel_proxy.Proxy.Drains.{gone, in_flight, Drains, drain-Drains, after}

module _ (X : External) (head_sha : X.Json → Reply Text) (cfg : ProxyConfig) (wire : Wire X.E)
    (api : CommandApi wire.Commands) (works : Works wire) where
  -- Plain events first, then the rest: the rest starts where the plain ones lead.
  run-append :
      (before rest : List (Event X.E)) (s : S wire)
      → All (IsPlain X head_sha cfg wire api) before
      → Loop.run X head_sha cfg wire api (before ++ rest) s
        ≡ Loop.run X head_sha cfg wire api rest (Loop.run X head_sha cfg wire api before s).1
  unfolding Loop.run
  run-append [] rest s h = refl
  run-append (from_backend (answer p) ∷ before) rest s h =
      rw (backend_packet-Sends X head_sha cfg wire api works p s).returns
        (run-append before rest _ h.1)
  run-append (from_backend (refusal e) ∷ before) rest s h = absurd h.0
  run-append (from_client (answer p) ∷ before) rest s h =
      rw (client_packet-Sends X head_sha cfg wire api works p s h.0).returns
        (run-append before rest _ h.1)
  run-append (from_client (refusal e) ∷ before) rest s h = absurd h.0
  run-append (from_broadcast (answer m) ∷ before) rest s h = run-append before rest _ h.1
  run-append (from_broadcast (refusal e) ∷ before) rest s h = run-append before rest s h.1
  run-append (timer ∷ before) rest s h = run-append before rest s h.1
  run-append (all_closed ∷ before) rest s h = absurd h.0
  run-append (elsewhere f ∷ before) rest s h = run-append before rest _ h.1

  -- The Transfer packet to the proxy's own address.
  abbrev pub transfer_packet : Packet wire.Commands
  transfer_packet =
      transfer (some wire.ids.play_transfer)
        (works.number (length (as_bytes cfg.public_address) % 2 ^ 32)
          ++ (as_bytes cfg.public_address ++ works.number cfg.bind_port))
        play

  -- The client's packet says `/server` with this name, which is a backend's.
  pub record IsSwitch (p : RawPacket) (command name : Text) (s : S wire) : Type 0 where
    pub in_play : s.current_protocol ≡ play
    pub chat : Handlers.is_chat_command X head_sha cfg wire api p ≡ true
    pub parsed : parse_command_from_payload wire p.payload ≡ ok command
    pub meant : classify command ≡ server name
    pub known : contains s.world.backends name ≡ true

  transfer-Sends :
      (s : S wire)
      → Sends wire works
          (Commands.send_transfer X head_sha cfg wire s)
          tt
          s
          []
          (transfer_packet ∷ [])
          s.current_protocol
  unfolding Commands.send_transfer Packets.write_transfer Packets.transfer_id Packets.new
  transfer-Sends s =
      rw (works.numbered, works.numbered) (send_client-Sends wire works none transfer_packet s)

  switch-Sends :
      (p : RawPacket) (command name : Text) (s : S wire)
      → IsSwitch p command name s
      → Sends wire works
          (Handlers.handle_client_packet X head_sha cfg wire api p s)
          disconnect
          s
          []
          (transfer_packet ∷ [])
          s.current_protocol
  unfolding Handlers.handle_client_packet Handlers.on_command Handlers.run_command
      Commands.switch_server
  switch-Sends p command name s h =
      rw (ap Handlers.is_play h.in_play, h.chat, h.parsed, h.meant, h.known)
        (Sends-from wire works s stored refl refl refl refl (
          then-Sends wire works (Commands.send_transfer X head_sha cfg wire) stored stored
            disconnect (transfer-Sends stored)))
    where
      stored : S wire
      stored = Commands.on_world X head_sha cfg wire (set_target_server s.player_uuid name) s

  last_packet :
      (p : RawPacket) (command name : Text) (rest : List (Event X.E)) (s : S wire)
      → IsSwitch p command name s
      → Drains X head_sha cfg wire api works
          (Loop.run X head_sha cfg wire api (from_client (answer p) ∷ rest) s)
          s
          (gone X head_sha cfg wire api rest)
          []
          (transfer_packet ∷ in_flight X head_sha cfg wire api works rest)
  unfolding Loop.run
  last_packet p command name rest s h = rw sent.returns (
      after X head_sha cfg wire api works (transfer_packet ∷ [])
        (in_flight X head_sha cfg wire api works rest) sent
        (drain-Drains X head_sha cfg wire api works rest _))
    where
      sent :
          Sends wire works
            (Handlers.handle_client_packet X head_sha cfg wire api p s)
            disconnect
            s
            []
            (transfer_packet ∷ [])
            s.current_protocol
      sent = switch-Sends p command name s h

  -- On a wire that works, a session in which both sides stay connected and no packet of the
  -- client with a chat command's number has a payload that is read as one of the proxy's own
  -- commands or that makes the reading panic, as a negative length does, up to the client's
  -- `/server` with a known name in the play state, passes packets on until then, then sends the
  -- Transfer packet to the proxy's own address and nothing more but the backend's packets, to the
  -- client, until the client disconnects or the timer runs out; then it ends without an error,
  -- and not before.
  pub run-Drains :
      (before rest : List (Event X.E)) (p : RawPacket) (command name : Text) (s : S wire)
      → All (IsPlain X head_sha cfg wire api) before
      → IsSwitch p command name (Loop.run X head_sha cfg wire api before s).1
      → Drains X head_sha cfg wire api works
          (Loop.run X head_sha cfg wire api (before ++ (from_client (answer p) ∷ rest)) s)
          s
          (gone X head_sha cfg wire api rest)
          (for_backend X head_sha cfg wire api works s.backend_compression_threshold before)
          (for_client X head_sha cfg wire api works s.current_protocol before
            ++ (transfer_packet ∷ in_flight X head_sha cfg wire api works rest))
  run-Drains before rest p command name s plain h =
      rw (run-append before (from_client (answer p) ∷ rest) s plain) (record {
        ends = end.ends;
        to_backend = end.to_backend ∙ append-nil _ ∙ first.to_backend;
        to_client =
            end.to_client
            ∙ ap (λ l. l ++ (transfer_packet ∷ in_flight X head_sha cfg wire api works rest))
                first.to_client
            ∙ append_assoc s.to_client _ _;
      })
    where
      reached : S wire
      reached = (Loop.run X head_sha cfg wire api before s).1

      first :
          Relays X head_sha cfg wire api works
            (Loop.run X head_sha cfg wire api before s)
            s
            (for_backend X head_sha cfg wire api works s.backend_compression_threshold before)
            (for_client X head_sha cfg wire api works s.current_protocol before)
      first = run-Relays X head_sha cfg wire api works before s plain

      end :
          Drains X head_sha cfg wire api works
            (Loop.run X head_sha cfg wire api (from_client (answer p) ∷ rest) reached)
            reached
            (gone X head_sha cfg wire api rest)
            []
            (transfer_packet ∷ in_flight X head_sha cfg wire api works rest)
      end = last_packet p command name rest reached h
