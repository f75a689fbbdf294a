-- ===== src/Tests/Visits.antt =====
-- A player who goes to the server of PR 7, on a concrete input.
use steel_proxy.Common.{ℕ, nat_eq, text_eq, text_beq, codes, ◌≡◌, refl, some, ok, ◌∷◌, ◌++◌, arith}
use steel_proxy.Common.Map.{lookup}
use steel_proxy.World.{World}
use steel_proxy.K8s.Instances.{backend_name, pr_backend, register_backend, insert_instance}
use steel_proxy.K8s.Comes.{IsServed}
use steel_proxy.Proxy.Backends.{get}
use steel_proxy.Proxy.Wire.{RawPacket, login}
use steel_proxy.Proxy.Session.{Session}
use steel_proxy.Proxy.Forward.{parse_command_from_payload}
use steel_proxy.Proxy.Handlers.{handle_client_packet}
use steel_proxy.Proxy.Login.{on_packet}
use steel_proxy.Proxy.Reconnect.{connection}
use steel_proxy.Proxy.Visits.{ready_pr_reached}
use steel_proxy.Tests.{world_outside, head_sha, proxy_config, wire, command_api}
use steel_proxy.Tests.Proxy.{session}
use steel_proxy.Tests.Login.{login_wire, steve, acknowledgement}
use steel_proxy.Tests.Relay.{ready_7, ready_world, there_7}

abbrev visitor : Session ℕ (Unit {0})
visitor = record session { world = ready_world }

abbrev visit_packet : RawPacket
visit_packet = record { id = 5; payload = 11 ∷ codes "server pr-7" }

visit_packet-text :
    parse_command_from_payload wire visit_packet.payload ≡ ok (codes "server " ++ backend_name 7)
unfolding parse_command_from_payload steel_proxy.Proxy.Forward.read_string
    steel_proxy.Proxy.Forward.as_usize codes steel_proxy.Common.Utf8.from_utf8 backend_name
    steel_proxy.Common.show
visit_packet-text = refl

abbrev asked_world : World ℕ
asked_world =
    (handle_client_packet (world_outside 1) head_sha proxy_config wire command_api visit_packet
      visitor).1.world

ready_world-IsServed : IsServed 7 (codes "steel-pr-7") (codes "10.0.0.1") 30001 ready_7 ready_world
unfolding get lookup register_backend steel_proxy.Proxy.Backends.add_dynamic
    steel_proxy.Common.Map.insert insert_instance text_beq backend_name codes
    steel_proxy.Common.show
ready_world-IsServed = record {
  since = 50;
  until = 1800000000050;
  instance_ready = there_7;
  backend_found = refl;
}

-- By the time of the login only the pending switch differs from the world before.
abbrev later_world : World ℕ
later_world = record ready_world { pending_switches = asked_world.pending_switches }

later_world-IsServed : IsServed 7 (codes "steel-pr-7") (codes "10.0.0.1") 30001 ready_7 later_world
later_world-IsServed = record {
  since = ready_world-IsServed.since;
  until = ready_world-IsServed.until;
  instance_ready = ready_world-IsServed.instance_ready;
  backend_found = ready_world-IsServed.backend_found;
}

ready_pr_reached_example :
    (on_packet proxy_config login_wire login acknowledgement (steve later_world)).0
    ≡ ok (connection (backend_name 7) (codes "steve") 77 (pr_backend 7 (codes "10.0.0.1") 30001))
ready_pr_reached_example =
    ready_pr_reached (world_outside 1) head_sha proxy_config wire command_api login_wire 7
      (codes "steel-pr-7") (codes "10.0.0.1") (codes "steve") 30001 ready_7 visitor visit_packet
      acknowledgement (steve later_world) (ground arith) ready_world-IsServed refl refl
      visit_packet-text later_world-IsServed refl refl refl refl refl refl
