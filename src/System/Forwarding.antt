-- ===== src/System/Forwarding.antt =====
-- The forwarder of src/proxy/packet_forwarder.rs as a path of steps in the shared state.
use steel_proxy.Common.{
  ℕ, Text, Option, none, some, Result, ok, err, panic, refl, ◌≡◌, nat_beq, Bool-cases, inl, inr,
}
use steel_proxy.Common.Exec.{pure, modify, ◌>>◌}
use steel_proxy.Common.Walks.{Walks, Walks-bind, Walks-unwind}
use steel_proxy.Config.Types.{ProxyConfig}
use steel_proxy.External.{External, Reply}
use steel_proxy.Packets.Tree.{CommandApi}
use steel_proxy.Proxy.Server.{set_target_server}
use steel_proxy.Proxy.Wire.{Wire, RawPacket}
use steel_proxy.Proxy.Session.{S}
use steel_proxy.Proxy.Forward
use steel_proxy.Proxy.Commands
use steel_proxy.Proxy.Commands.{ChatCommand, list, other, Action, continue, disconnect}
use steel_proxy.Proxy.Handlers
use steel_proxy.Proxy.Observes.{IsApart, observe-apart}
use steel_proxy.System.Steps.{step, switches}
use steel_proxy.System.Starts.{start_pr-Reaches}
use steel_proxy.System.Sessions.{Travels, Travels-Preorder, own-Travels, travel_rules}

module _ {E : Type 0} (wire : Wire E) where
  pub system_message-Travels :
      (m : Text) → Walks (Travels wire) (Forward.send_system_message wire m)
  unfolding Forward.send_system_message
  system_message-Travels m = search travel_rules

  to_backend-Travels : (p : RawPacket) → Walks (Travels wire) (Forward.forward_to_backend wire p)
  unfolding Forward.forward_to_backend
  to_backend-Travels p = search travel_rules depth 8

  pub to_client-Travels : (p : RawPacket) → Walks (Travels wire) (Forward.forward_to_client wire p)
  unfolding Forward.forward_to_client
  to_client-Travels p = search travel_rules depth 8

  commands_packet-Travels :
      (api : CommandApi wire.Commands)
      → Walks (Travels wire) (Forward.send_commands_packet wire api)
  unfolding Forward.send_commands_packet
  commands_packet-Travels api = search travel_rules

module _ (X : External) (head_sha : X.Json → Reply Text) (cfg : ProxyConfig) (wire : Wire X.E) where
  list_servers-Travels : Walks (Travels wire) (Commands.list_servers X head_sha cfg wire)
  unfolding Commands.list_servers
  list_servers-Travels = search (travel_rules, system_message-Travels) depth 8

  transfer-Travels : Walks (Travels wire) (Commands.send_transfer X head_sha cfg wire)
  unfolding Commands.send_transfer
  transfer-Travels = search travel_rules depth 8

  set_target-Travels :
      (uuid : ℕ) (name : Text)
      → Walks
          (Travels wire)
          (modify (Commands.on_world X head_sha cfg wire (set_target_server uuid name)))
  set_target-Travels uuid name = record {
    at = λ s. record { path = step _ _ (switches s.world uuid name) };
  }

  switch_server-Travels :
      (name : Text) → Walks (Travels wire) (Commands.switch_server X head_sha cfg wire name)
  unfolding Commands.switch_server
  switch_server-Travels name =
      search (travel_rules, system_message-Travels, transfer-Travels, set_target-Travels) depth 12

  start_number-Travels :
      (o : Option ℕ) → Walks (Travels wire) (Commands.start_number X head_sha cfg wire o)
  unfolding Commands.start_number
  start_number-Travels none = system_message-Travels wire _
  start_number-Travels (some n) =
      search (travel_rules, system_message-Travels, start_pr-Reaches) depth 8

  status_number-Travels :
      (o : Option ℕ) → Walks (Travels wire) (Commands.status_number X head_sha cfg wire o)
  unfolding Commands.status_number
  status_number-Travels none = system_message-Travels wire _
  status_number-Travels (some n) = search (travel_rules, system_message-Travels) depth 8

  module _ (api : CommandApi wire.Commands) where
    follow-world :
        (p : RawPacket) (s : S wire)
        → (Handlers.follow_protocol X head_sha cfg wire api p s).world ≡ s.world
    unfolding Handlers.follow_protocol
    follow-world p s = elim (Bool-cases (nat_beq p.id wire.ids.finish_configuration)) [
      | inl last ↦ rw last refl
      | inr before ↦ rw before refl
    ]

    pass_on-Travels :
        (p : RawPacket) → Walks (Travels wire) (Handlers.pass_on X head_sha cfg wire api p)
    unfolding Handlers.pass_on
    pass_on-Travels p =
        Walks-bind (Travels-Preorder wire)
          (modify (Handlers.follow_protocol X head_sha cfg wire api p))
          (λ u. Forward.forward_to_backend wire p >> pure continue)
          (own-Travels wire _ (follow-world p))
          λ u. search (travel_rules, to_backend-Travels) depth 6

    run_command-Travels :
        (p : RawPacket) (c : ChatCommand)
        → Walks (Travels wire) (Handlers.run_command X head_sha cfg wire api p c)
    unfolding Handlers.run_command Commands.handle_start_command Commands.handle_status_command
    run_command-Travels p list = search (travel_rules, list_servers-Travels) depth 8
    run_command-Travels p (ChatCommand.server name) = switch_server-Travels name
    run_command-Travels p (ChatCommand.start arg) =
        search (travel_rules, start_number-Travels) depth 8
    run_command-Travels p (ChatCommand.status arg) =
        search (travel_rules, status_number-Travels) depth 8
    run_command-Travels p other = pass_on-Travels p

    on_command-Travels :
        (p : RawPacket) (r : Result Text)
        → Walks (Travels wire) (Handlers.on_command X head_sha cfg wire api p r)
    unfolding Handlers.on_command
    on_command-Travels p (ok command) = run_command-Travels p _
    on_command-Travels p (err e) = pass_on-Travels p
    on_command-Travels p panic = Walks-unwind (Travels-Preorder wire)

    pub client_packet-Travels :
        (p : RawPacket)
        → Walks (Travels wire) (Handlers.handle_client_packet X head_sha cfg wire api p)
    unfolding Handlers.handle_client_packet
    client_packet-Travels p = search (travel_rules, on_command-Travels, pass_on-Travels) depth 8

    world-IsApart : IsApart wire (λ s. s.world)
    world-IsApart = record { entity_apart = λ s o. refl; level_apart = λ s l. refl }

    see-Travels :
        (p : RawPacket) → Walks (Travels wire) (modify (Handlers.observe X head_sha cfg wire api p))
    see-Travels p = own-Travels wire _ (observe-apart X head_sha cfg wire api world-IsApart p)

    pub backend_packet-Travels :
        (p : RawPacket)
        → Walks (Travels wire) (Handlers.handle_backend_packet X head_sha cfg wire api p)
    unfolding Handlers.handle_backend_packet
    backend_packet-Travels p =
        search (travel_rules, see-Travels, to_client-Travels, commands_packet-Travels) depth 10
