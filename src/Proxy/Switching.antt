-- ===== src/Proxy/Switching.antt =====
-- `/server <name>` in src/proxy/packet_forwarder.rs, and the next connection of the same player.
use steel_proxy.Common.{
  ℕ, nat_eq, Text, ◌≡◌, ◌≢◌, refl, true, false, Option, none, some, Result, ok, err, panic, eq_self,
}
use steel_proxy.Common.Exec.{then_run, pure, lift, ◌>>◌}
use steel_proxy.Common.Map.{HashMap, lookup-insert, lookup-remove}
use steel_proxy.Config.Types.{ProxyConfig}
use steel_proxy.External.{External, Reply, answer, refusal, to_result}
use steel_proxy.Proxy.Backends.{contains}
use steel_proxy.Proxy.Server.{get_target_server, set_target_server}
use steel_proxy.Proxy.Wire.{Wire, Packet}
use steel_proxy.Proxy.Session
use steel_proxy.Proxy.Session.{S, send_client, sent_to_client}
use steel_proxy.Proxy.Forward
use steel_proxy.Proxy.Commands
use steel_proxy.Proxy.Commands.{Action, continue, disconnect}
use steel_proxy.Proxy.Frames.{Leaves, leaves_rules, Leaves-bind, Leaves-lift}

module _ (X : External) (head_sha : X.Json → Reply Text) (cfg : ProxyConfig) (wire : Wire X.E) where
  abbrev pending : S wire → HashMap ℕ Text
  pending s = s.world.pending_switches

  Leaves-send : (c : Option Text) (p : Packet wire.Commands) → Leaves pending (send_client wire c p)
  unfolding send_client
  Leaves-send c p =
      Leaves-bind (lift (to_result (wire.encode p)))
        (λ frame s.
          Session.write_result wire c (sent_to_client wire p) (wire.write_client frame s.world.ext)
            s)
        (Leaves-lift _)
        λ frame. record { at = λ s. written s (wire.write_client frame s.world.ext) }
    where
      written :
          (s : S wire) (r : Reply (Unit {0}) × X.E)
          → pending (Session.write_result wire c (sent_to_client wire p) r s).1 ≡ pending s
      written s (answer u, e) = refl
      written s (refusal m, e) = refl

  Leaves-transfer : Leaves pending (Commands.send_transfer X head_sha cfg wire >> pure disconnect)
  unfolding Commands.send_transfer
  Leaves-transfer = search (leaves_rules, Leaves-send) depth 10

  Leaves-unknown : (m : Text) → Leaves pending (Forward.send_system_message wire m >> pure continue)
  unfolding Forward.send_system_message
  Leaves-unknown m = search (leaves_rules, Leaves-send) depth 10

  -- After `/server` with the name of a backend, even if the Transfer packet cannot be sent, the
  -- player's next connection gets that backend, and a connection after it gets no switch.
  pub switch_then_connect :
      (name : Text) (s : S wire)
      → contains s.world.backends name ≡ true
      → (get_target_server s.player_uuid
            (Commands.switch_server X head_sha cfg wire name s).1.world).0
          ≡ some name
        × ((get_target_server s.player_uuid
              (get_target_server s.player_uuid
                (Commands.switch_server X head_sha cfg wire name s).1.world).1).0
            ≡ none)
  unfolding Commands.switch_server get_target_server set_target_server
  switch_then_connect name s known =
      rw (known, Leaves-transfer.at, lookup-remove, lookup-insert, eq_self) (refl, refl)

  goes_on :
      (r : Result (Unit {0})) (s : S wire)
      → (then_run (λ (u : Unit {0}). pure continue) r s).0 ≢ ok disconnect
  goes_on (ok u) s e = cc
  goes_on (err m) s e = cc
  goes_on panic s e = cc

  -- After `/server` with another name the session does not end in a switch, and the switches that
  -- are pending are those of before.
  pub switch_unknown :
      (name : Text) (s : S wire)
      → contains s.world.backends name ≡ false
      → ((Commands.switch_server X head_sha cfg wire name s).0 ≢ ok disconnect)
        × ((Commands.switch_server X head_sha cfg wire name s).1.world.pending_switches
            ≡ s.world.pending_switches)
  unfolding Commands.switch_server
  switch_unknown name s unknown = rw unknown (
    goes_on (Forward.send_system_message wire _ s).0 (Forward.send_system_message wire _ s).1,
    (Leaves-unknown _).at s,
  )
