-- ===== src/Proxy/Intercepts.antt =====
-- Commands that the proxy answers itself (src/proxy/packet_forwarder.rs), and the parts of a
-- session that they do not touch.
use steel_proxy.Common.{
  ℕ, Text, ◌≡◌, ◌≢◌, refl, ap, Bool, true, false, Option, none, some, Result, ok, if◌then◌else◌,
  arith, ◌&&◌,
}
use steel_proxy.Common.Exec.{modify}
use steel_proxy.Config.Types.{ProxyConfig}
use steel_proxy.External.{External, Reply}
use steel_proxy.Packets.Tree.{CommandApi}
use steel_proxy.Proxy.Server.{set_target_server}
use steel_proxy.Proxy.Wire.{Wire, RawPacket, play}
use steel_proxy.Proxy.Session.{S}
use steel_proxy.Proxy.Forward
use steel_proxy.Proxy.Forward.{parse_command_from_payload}
use steel_proxy.Proxy.Commands
use steel_proxy.Proxy.Commands.{ChatCommand, list, other, classify, Action}
use steel_proxy.Proxy.Handlers
use steel_proxy.Proxy.Frames.{
  Leaves, leaves_rules, Leaves-pure, Leaves-try_catch, Leaves-in_world, Leaves-send_client,
  IsPrivate,
}

module _ {κ} (X : External) (head_sha : X.Json → Reply Text) (cfg : ProxyConfig) (wire : Wire X.E)
    {B : Type κ} {part : S wire → B} (h : IsPrivate wire part) where
  pub Leaves-send_system_message : (m : Text) → Leaves part (Forward.send_system_message wire m)
  unfolding Forward.send_system_message
  Leaves-send_system_message m = Leaves-send_client wire h _ _

  Leaves-list_servers : Leaves part (Commands.list_servers X head_sha cfg wire)
  unfolding Commands.list_servers
  Leaves-list_servers = search (leaves_rules, Leaves-send_system_message) depth 8

  Leaves-send_transfer : Leaves part (Commands.send_transfer X head_sha cfg wire)
  unfolding Commands.send_transfer
  Leaves-send_transfer = search (leaves_rules, Leaves-send_client wire h) depth 8

  Leaves-set_target :
      (uuid : ℕ) (name : Text)
      → Leaves part (modify (Commands.on_world X head_sha cfg wire (set_target_server uuid name)))
  Leaves-set_target uuid name = record { at = λ s. h.world_apart s _ }

  Leaves-switch_server :
      (name : Text) → Leaves part (Commands.switch_server X head_sha cfg wire name)
  unfolding Commands.switch_server
  Leaves-switch_server name =
      search (leaves_rules, Leaves-send_system_message, Leaves-send_transfer, Leaves-set_target)
        depth 12

  Leaves-start_number : (o : Option ℕ) → Leaves part (Commands.start_number X head_sha cfg wire o)
  unfolding Commands.start_number
  Leaves-start_number none = Leaves-send_system_message _
  Leaves-start_number (some n) =
      Leaves-try_catch _ _ _ (Leaves-in_world wire h _) (λ (u : Unit {0}). Leaves-pure tt)
        λ e. Leaves-send_system_message _

  Leaves-status_number : (o : Option ℕ) → Leaves part (Commands.status_number X head_sha cfg wire o)
  unfolding Commands.status_number
  Leaves-status_number none = Leaves-send_system_message _
  Leaves-status_number (some n) = search (leaves_rules, Leaves-send_system_message) depth 8

  Leaves-handle_start :
      (arg : Text) → Leaves part (Commands.handle_start_command X head_sha cfg wire arg)
  unfolding Commands.handle_start_command
  Leaves-handle_start arg = Leaves-start_number _

  Leaves-handle_status :
      (arg : Text) → Leaves part (Commands.handle_status_command X head_sha cfg wire arg)
  unfolding Commands.handle_status_command
  Leaves-handle_status arg = Leaves-status_number _

  pub Leaves-run_command :
      (api : CommandApi wire.Commands) (p : RawPacket) (c : ChatCommand)
      → c ≢ other
      → Leaves part (Handlers.run_command X head_sha cfg wire api p c)
  unfolding Handlers.run_command
  Leaves-run_command api p list ne = search (leaves_rules, Leaves-list_servers) depth 8
  Leaves-run_command api p (ChatCommand.server name) ne = Leaves-switch_server name
  Leaves-run_command api p (ChatCommand.start arg) ne =
      search (leaves_rules, Leaves-handle_start) depth 8
  Leaves-run_command api p (ChatCommand.status arg) ne =
      search (leaves_rules, Leaves-handle_status) depth 8
  Leaves-run_command api p other ne = absurd (ne refl)

module _ (X : External) (head_sha : X.Json → Reply Text) (cfg : ProxyConfig) (wire : Wire X.E)
    (api : CommandApi wire.Commands) where
  to_backend-IsPrivate : IsPrivate wire (λ s. s.to_backend)
  to_backend-IsPrivate = record { world_apart = λ s w. refl; client_apart = λ s p. refl }

  dispatched :
      (p : RawPacket) (s : S wire) (command : Text) (now_play : Bool) (r : Result Text)
      → now_play ≡ true
      → r ≡ ok command
      → classify command ≢ other
      → ((if now_play
            then Handlers.on_command X head_sha cfg wire api p r
            else Handlers.pass_on X head_sha cfg wire api p)
          s).1.to_backend
        ≡ s.to_backend
  unfolding Handlers.on_command
  dispatched p s command false r now parsed own = absurd (ground arith)
  dispatched p s command true r now parsed own = rw parsed (
      (Leaves-run_command X head_sha cfg wire to_backend-IsPrivate api p (classify command) own).at
        s)

  -- In the play state a chat command, signed or not, whose text is one of the proxy's own commands
  -- sends nothing to the backend.
  pub own_command_intercepted :
      (p : RawPacket) (s : S wire) (command : Text)
      → s.current_protocol ≡ play
      → Handlers.is_chat_command X head_sha cfg wire api p ≡ true
      → parse_command_from_payload wire p.payload ≡ ok command
      → classify command ≢ other
      → (Handlers.handle_client_packet X head_sha cfg wire api p s).1.to_backend ≡ s.to_backend
  unfolding Handlers.handle_client_packet
  own_command_intercepted p s command in_play chat parsed own =
      dispatched p s command _ _ (both (ap Handlers.is_play in_play) chat) parsed own
    where
      both : {a b : Bool} → a ≡ true → b ≡ true → (a && b) ≡ true
      both ha hb = rw (ha, hb) refl
