-- ===== src/Proxy/Passes.antt =====
-- What `handle_client_packet` and `handle_backend_packet` of src/proxy/packet_forwarder.rs send on
-- such a wire.
use steel_proxy.Common.{
  if◌then◌else◌, ◌⊎◌, err, panic, nat_beq, Text, ◌≡◌, refl, Bool, true, false, Bool-cases, inl, inr,
  List, [], ◌∷◌, Result, ok, ◌&&◌,
}
use steel_proxy.Config.Types.{ProxyConfig}
use steel_proxy.External.{External, Reply}
use steel_proxy.Packets.Tree.{CommandApi}
use steel_proxy.Proxy.Wire.{Wire, RawPacket, Packet, play}
use steel_proxy.Proxy.Session.{S}
use steel_proxy.Proxy.Forward
use steel_proxy.Proxy.Forward.{parse_command_from_payload}
use steel_proxy.Proxy.Commands.{continue}
use steel_proxy.Proxy.Handlers
use steel_proxy.Proxy.Observes.{observe-apart}
use steel_proxy.Proxy.Relay.{Works, IsForeign, passed_on, followed, shown}
use steel_proxy.Proxy.Sends.{
  Sends, Sends-from, then-Sends, to_client-Sends, to_backend-Sends, commands-Sends,
}

true-false : ¬ (true ≡ false)
true-false e = cc

module _ (X : External) (head_sha : X.Json → Reply Text) (cfg : ProxyConfig) (wire : Wire X.E)
    (api : CommandApi wire.Commands) (works : Works wire) where
  follow :
      (p : RawPacket) (s : S wire)
      → Sends wire works
          (Forward.forward_to_backend wire p (Handlers.follow_protocol X head_sha cfg wire api p s))
          tt
          s
          (passed_on X head_sha cfg wire api works p s.backend_compression_threshold ∷ [])
          []
          (followed X head_sha cfg wire api works p s.current_protocol)
  unfolding Handlers.follow_protocol
  follow p s = elim (Bool-cases (nat_beq p.id wire.ids.finish_configuration)) [
    | inl last ↦ rw last (
        Sends-from wire works s (record s { current_protocol = play }) refl refl refl refl
          (to_backend-Sends wire works p (record s { current_protocol = play })))
    | inr before ↦ rw before (to_backend-Sends wire works p s)
  ]

  passed_on-Sends :
      (p : RawPacket) (s : S wire)
      → Sends wire works
          (Handlers.pass_on X head_sha cfg wire api p s)
          continue
          s
          (passed_on X head_sha cfg wire api works p s.backend_compression_threshold ∷ [])
          []
          (followed X head_sha cfg wire api works p s.current_protocol)
  unfolding Handlers.pass_on
  passed_on-Sends p s =
      then-Sends wire works (Forward.forward_to_backend wire p) s
        (Handlers.follow_protocol X head_sha cfg wire api p s) continue (follow p s)

  foreign_passed_on :
      (p : RawPacket) (r : Result Text)
      → IsForeign X head_sha cfg wire api r
      → Handlers.on_command X head_sha cfg wire api p r ≡ Handlers.pass_on X head_sha cfg wire api p
  unfolding Handlers.on_command Handlers.run_command
  foreign_passed_on p (ok command) h = rw h refl
  foreign_passed_on p (err e) h = refl
  foreign_passed_on p panic h = absurd h

  if-foreign :
      (p : RawPacket) (now chat : Bool) (r : Result Text)
      → (chat ≡ false) ⊎ IsForeign X head_sha cfg wire api r
      → (if now && chat
          then Handlers.on_command X head_sha cfg wire api p r
          else Handlers.pass_on X head_sha cfg wire api p)
        ≡ Handlers.pass_on X head_sha cfg wire api p
  if-foreign p false chat r h = refl
  if-foreign p true false r h = refl
  if-foreign p true true r (inl no_chat) = absurd (true-false no_chat)
  if-foreign p true true r (inr foreign) = foreign_passed_on p r foreign

  pub client_packet-Sends :
      (p : RawPacket) (s : S wire)
      → (Handlers.is_chat_command X head_sha cfg wire api p ≡ false)
        ⊎ IsForeign X head_sha cfg wire api (parse_command_from_payload wire p.payload)
      → Sends wire works
          (Handlers.handle_client_packet X head_sha cfg wire api p s)
          continue
          s
          (passed_on X head_sha cfg wire api works p s.backend_compression_threshold ∷ [])
          []
          (followed X head_sha cfg wire api works p s.current_protocol)
  unfolding Handlers.handle_client_packet
  client_packet-Sends p s plain =
      rw (if-foreign p (Handlers.is_play s.current_protocol) _ _ plain) (passed_on-Sends p s)

  pub backend_packet-Sends :
      (p : RawPacket) (s : S wire)
      → Sends wire works
          (Handlers.handle_backend_packet X head_sha cfg wire api p s)
          tt
          s
          []
          (shown X head_sha cfg wire api works p s.current_protocol ∷ [])
          s.current_protocol
  unfolding Handlers.handle_backend_packet
  backend_packet-Sends p s = elim (Bool-cases (Handlers.is_play s.current_protocol)) [
    | inl in_play ↦ rw in_play (elim (Bool-cases (Handlers.is_commands X head_sha cfg wire api p)) [
      | inl replaced ↦ rw replaced (observed (commands-Sends wire works api seen))
      | inr other ↦ rw other (observed (to_client-Sends wire works p seen))
    ])
    | inr before ↦ rw before (to_client-Sends wire works p s)
  ]
    where
      seen : S wire
      seen = Handlers.observe X head_sha cfg wire api p s

      observed :
          {run : Result (Unit {0}) × S wire} {client : List (Packet wire.Commands)}
          → Sends wire works run tt seen [] client seen.current_protocol
          → Sends wire works run tt s [] client s.current_protocol
      observed h =
          Sends-from wire works s seen
            (observe-apart X head_sha cfg wire api {part = λ t. t.to_backend}
              (record { entity_apart = λ t o. refl; level_apart = λ t l. refl }) p s)
            (observe-apart X head_sha cfg wire api {part = λ t. t.to_client}
              (record { entity_apart = λ t o. refl; level_apart = λ t l. refl }) p s)
            (observe-apart X head_sha cfg wire api {part = λ t. t.backend_compression_threshold}
              (record { entity_apart = λ t o. refl; level_apart = λ t l. refl }) p s)
            (observe-apart X head_sha cfg wire api {part = λ t. t.current_protocol}
              (record { entity_apart = λ t o. refl; level_apart = λ t l. refl }) p s)
            h
