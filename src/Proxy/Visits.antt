-- ===== src/Proxy/Visits.antt =====
-- From a PR that is ready to a player on its server: `/server` in src/proxy/packet_forwarder.rs, the
-- registry of src/proxy.rs, and the next login in src/proxy/client_handler.rs.
use steel_proxy.Common.{
  ℕ, nat_eq, nat_beq, ◌≤◌, Text, ◌≡◌, refl, ap, ◌∙◌, true, false, some, codes, ◌++◌, ok, u32_max,
}
use steel_proxy.Common.Map.{lookup}
use steel_proxy.Config.Types.{ProxyConfig}
use steel_proxy.External.{External, Reply}
use steel_proxy.Packets.Tree.{CommandApi}
use steel_proxy.K8s.Instance.{PrInstance}
use steel_proxy.K8s.Instances.{backend_name, pr_backend}
use steel_proxy.K8s.Comes.{IsServed}
use steel_proxy.Proxy.Backends.{contains}
use steel_proxy.Proxy.Server.{get_target_server}
use steel_proxy.Proxy.Wire.{Wire, RawPacket, login, play}
use steel_proxy.Proxy.Session.{S}
use steel_proxy.Proxy.Forward.{parse_command_from_payload}
use steel_proxy.Proxy.Commands
use steel_proxy.Proxy.Handlers
use steel_proxy.Proxy.Login
use steel_proxy.Proxy.Login.{Login, LoginWire}
use steel_proxy.Proxy.Lookups.{contains-get}
use steel_proxy.Proxy.Reading.{command_words_read}
use steel_proxy.Proxy.Switching.{switch_then_connect}
use steel_proxy.Proxy.Reconnect.{connection, acknowledged_connects}

module _ (X : External) (head_sha : X.Json → Reply Text) (cfg : ProxyConfig) (wire : Wire X.E)
    (api : CommandApi wire.Commands) (login_wire : LoginWire X.E) where
  asked-switch_server :
      (n : ℕ) (s : S wire) (p : RawPacket)
      → n ≤ u32_max
      → s.current_protocol ≡ play
      → Handlers.is_chat_command X head_sha cfg wire api p ≡ true
      → parse_command_from_payload wire p.payload ≡ ok (codes "server " ++ backend_name n)
      → Handlers.handle_client_packet X head_sha cfg wire api p s
        ≡ Commands.switch_server X head_sha cfg wire (backend_name n) s
  unfolding Handlers.handle_client_packet Handlers.on_command Handlers.run_command
  asked-switch_server n s p small in_play chat parsed =
      rw (ap Handlers.is_play in_play, chat, parsed, (command_words_read n small).2) refl

  -- A player in the play state who asks with `/server` for a PR that is ready, and then logs in
  -- again with the same UUID, is connected to the address of the PR's service when the login is
  -- acknowledged, whatever other tasks did in between, if the PR is still ready then and the player's
  -- pending switch is the one that was left.
  pub ready_pr_reached :
      (n : ℕ) (name address username : Text) (port : ℕ) (i : PrInstance) (s : S wire)
      (p q : RawPacket) (l : Login X.E)
      → n ≤ u32_max
      → IsServed n name address port i s.world
      → s.current_protocol ≡ play
      → Handlers.is_chat_command X head_sha cfg wire api p ≡ true
      → parse_command_from_payload wire p.payload ≡ ok (codes "server " ++ backend_name n)
      → IsServed n name address port i l.world
      → lookup s.player_uuid l.world.pending_switches
        ≡ lookup s.player_uuid
            (Handlers.handle_client_packet X head_sha cfg wire api p s).1.world.pending_switches
      → l.protocol ≡ login
      → l.player_uuid ≡ some s.player_uuid
      → l.username ≡ some username
      → nat_beq q.id login_wire.ids.login_hello ≡ false
      → nat_beq q.id login_wire.ids.login_acknowledged ≡ true
      → (Login.on_packet cfg login_wire l.protocol q l).0
        ≡ ok (connection (backend_name n) username s.player_uuid (pr_backend n address port))
  unfolding get_target_server
  ready_pr_reached n name address username port i s p q l small served in_play chat parsed still
        left in_login same_uuid named not_hello ack =
      acknowledged_connects cfg login_wire q l s.player_uuid username in_login same_uuid named
        not_hello ack
      ∙ rw (pending_name, still.backend_found) refl
    where
      known : contains s.world.backends (backend_name n) ≡ true
      known = (contains-get s.world.backends (backend_name n)).0 ∙ rw served.backend_found refl

      pending_name : lookup s.player_uuid l.world.pending_switches ≡ some (backend_name n)
      pending_name =
          left
          ∙ rw (asked-switch_server n s p small in_play chat parsed)
              (switch_then_connect X head_sha cfg wire (backend_name n) s known).0
