-- ===== src/Proxy/Relay.antt =====
-- What a proxy that only passes packets on would send, for comparison with the loop of
-- src/proxy/packet_forwarder.rs.
use steel_proxy.Common.{
  ℕ, nat_beq, Text, false, Option, none, List, [], ◌∷◌, ◌++◌, ◌≡◌, if◌then◌else◌, ◌⊎◌, Result, ok,
  err, panic,
}
use steel_proxy.Config.Types.{ProxyConfig}
use steel_proxy.External.{External, Reply, answer, refusal}
use steel_proxy.Packets.Tree.{CommandApi, build_commands}
use steel_proxy.Proxy.Wire.{
  Wire, RawPacket, Packet, bytes, system_chat, command_tree, ConnectionProtocol, play,
}
use steel_proxy.Proxy.Commands.{classify, other}
use steel_proxy.Proxy.Forward.{parse_command_from_payload}
use steel_proxy.Proxy.Handlers
use steel_proxy.Proxy.Loop.{
  Event, from_backend, from_client, from_broadcast, timer, all_closed, elsewhere,
}

-- A wire on which every packet can be encoded and written.
pub record Works {E : Type 0} (wire : Wire E) : Type 0 where
  pub number : ℕ → List ℕ
  pub frame : Packet wire.Commands → wire.Frame
  pub numbered : (n : ℕ) → wire.write_varint n ≡ answer (number n)
  pub encoded : (p : Packet wire.Commands) → wire.encode p ≡ answer (frame p)
  pub client_open : (f : wire.Frame) (e : E) → (wire.write_client f e).0 ≡ answer tt
  pub backend_open : (f : wire.Frame) (e : E) → (wire.write_backend f e).0 ≡ answer tt

module _ (X : External) (head_sha : X.Json → Reply Text) (cfg : ProxyConfig) (wire : Wire X.E)
    (api : CommandApi wire.Commands) where
  -- A payload that is no text, or the text of a command that is not the proxy's own; not one
  -- whose reading panics.
  abbrev pub IsForeign : Result Text → Type 0
  IsForeign (ok command) = classify command ≡ other
  IsForeign (err e) = Unit
  IsForeign panic = ⊥

  -- An event of a connection that goes on: no command of the proxy's own, and none of a length that
  -- makes `parse_command_from_payload` panic.
  abbrev pub IsPlain : Event X.E → Type 0
  IsPlain (from_backend (answer p)) = Unit
  IsPlain (from_backend (refusal e)) = ⊥
  IsPlain (from_client (answer p)) =
      (Handlers.is_chat_command X head_sha cfg wire api p ≡ false)
      ⊎ IsForeign (parse_command_from_payload wire p.payload)
  IsPlain (from_client (refusal e)) = ⊥
  IsPlain (from_broadcast r) = Unit
  IsPlain timer = Unit
  IsPlain all_closed = ⊥
  IsPlain (elsewhere f) = Unit

  module _ (works : Works wire) where
    abbrev pub passed_on : RawPacket → Option ℕ → Packet wire.Commands
    passed_on p threshold = bytes (works.number p.id ++ p.payload) threshold

    abbrev pub followed : RawPacket → ConnectionProtocol → ConnectionProtocol
    followed p c = if nat_beq p.id wire.ids.finish_configuration then play else c

    -- The client's packets, compressed as the backend asked.
    abbrev pub for_backend : Option ℕ → List (Event X.E) → List (Packet wire.Commands)
    for_backend threshold [] = []
    for_backend threshold (from_client (answer p) ∷ events) =
        passed_on p threshold ∷ for_backend threshold events
    for_backend threshold (from_client (refusal e) ∷ events) = for_backend threshold events
    for_backend threshold (from_backend r ∷ events) = for_backend threshold events
    for_backend threshold (from_broadcast r ∷ events) = for_backend threshold events
    for_backend threshold (timer ∷ events) = for_backend threshold events
    for_backend threshold (all_closed ∷ events) = for_backend threshold events
    for_backend threshold (elsewhere f ∷ events) = for_backend threshold events

    -- A packet of the backend as the client sees it: the tree of commands is the proxy's own.
    abbrev pub shown : RawPacket → ConnectionProtocol → Packet wire.Commands
    shown p c =
        if Handlers.is_play c
        then if Handlers.is_commands X head_sha cfg wire api p
          then command_tree (build_commands api) play
          else passed_on p none
        else passed_on p none

    -- The backend's packets, uncompressed, and the broadcasts, in the protocol state that the
    -- client's packets lead to.
    abbrev pub for_client : ConnectionProtocol → List (Event X.E) → List (Packet wire.Commands)
    for_client c [] = []
    for_client c (from_backend (answer p) ∷ events) = shown p c ∷ for_client c events
    for_client c (from_backend (refusal e) ∷ events) = for_client c events
    for_client c (from_client (answer p) ∷ events) = for_client (followed p c) events
    for_client c (from_client (refusal e) ∷ events) = for_client c events
    for_client c (from_broadcast (answer m) ∷ events) = system_chat m play ∷ for_client c events
    for_client c (from_broadcast (refusal e) ∷ events) = for_client c events
    for_client c (timer ∷ events) = for_client c events
    for_client c (all_closed ∷ events) = for_client c events
    for_client c (elsewhere f ∷ events) = for_client c events
