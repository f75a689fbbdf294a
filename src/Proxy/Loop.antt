-- ===== src/Proxy/Loop.antt =====
-- src/proxy/packet_forwarder.rs: `run` and `drain_until_client_disconnects`. The two channels,
-- the broadcasts, the timer and the other tasks are a list of events, in the order in which
-- `select!` takes them; `none` is a task that still waits.
use steel_proxy.Common.{
  Option, none, some, Text, codes, List, [], ◌∷◌, ◌++◌, Result, ok, err, panic,
}
use steel_proxy.Config.Types.{ProxyConfig}
use steel_proxy.External.{External, Reply, answer, refusal}
use steel_proxy.World.{World}
use steel_proxy.Packets.Tree.{CommandApi}
use steel_proxy.Proxy.Wire.{Wire, RawPacket}
use steel_proxy.Proxy.Session.{S}
use steel_proxy.Proxy.Forward.{forward_to_client, send_system_message}
use steel_proxy.Proxy.Commands.{Action, continue, disconnect}
use steel_proxy.Proxy.Handlers.{handle_client_packet, handle_backend_packet}

pub data Event (E : Type 0) : Type 0 where
  from_backend : Reply RawPacket → Event E
  from_client : Reply RawPacket → Event E
  -- a message, or the error that some were missed
  from_broadcast : Reply Text → Event E
  timer : Event E
  all_closed : Event E
  -- what the other tasks did to the shared world
  elsewhere : (World E → World E) → Event E

abbrev pub Ended : Type 0
Ended = Option (Result (Unit {0}))

module _ (X : External) (head_sha : X.Json → Reply Text) (cfg : ProxyConfig) (wire : Wire X.E)
    (api : CommandApi wire.Commands) where
  abbrev pub on_world : (World X.E → World X.E) → S wire → S wire
  on_world f s = record s { world = f s.world }

  -- After a Transfer packet: errors of forwarding are ignored. The timer is the two seconds' one.
  unfoldable pub drain_until_client_disconnects : List (Event X.E) → S wire → Ended × S wire
  drain_until_client_disconnects [] s = (none, s)
  drain_until_client_disconnects (from_backend (answer p) ∷ events) s =
      let (r, s') = forward_to_client wire p s in drain_until_client_disconnects events s'
  drain_until_client_disconnects (from_backend (refusal e) ∷ events) s =
      drain_until_client_disconnects events s
  drain_until_client_disconnects (from_client (answer p) ∷ events) s =
      drain_until_client_disconnects events s
  drain_until_client_disconnects (from_client (refusal e) ∷ events) s = (some (ok tt), s)
  drain_until_client_disconnects (from_broadcast r ∷ events) s =
      drain_until_client_disconnects events s
  drain_until_client_disconnects (timer ∷ events) s = (some (ok tt), s)
  drain_until_client_disconnects (all_closed ∷ events) s = drain_until_client_disconnects events s
  drain_until_client_disconnects (elsewhere f ∷ events) s =
      drain_until_client_disconnects events (on_world f s)

  -- How the loop goes on after a packet of the backend, given the rest of the loop.
  abbrev pub after_backend : Result (Unit {0}) → S wire → (S wire → Ended × S wire) → Ended × S wire
  after_backend (ok u) s rest = rest s
  after_backend (err e) s rest = (some (err e), s)
  after_backend panic s rest = (some panic, s)

  abbrev pub after_client :
      Result Action → S wire → (S wire → Ended × S wire) → List (Event X.E) → Ended × S wire
  after_client (ok continue) s rest events = rest s
  after_client (ok disconnect) s rest events = drain_until_client_disconnects events s
  after_client (err e) s rest events = (some (err e), s)
  after_client panic s rest events = (some panic, s)

  unfoldable pub run : List (Event X.E) → S wire → Ended × S wire
  unfolding drain_until_client_disconnects
  run [] s = (none, s)
  run (from_backend (answer p) ∷ events) s =
      let (r, s') = handle_backend_packet X head_sha cfg wire api p s in
      after_backend r s' (run events)
  run (from_backend (refusal e) ∷ events) s = (some (err (codes "Backend read failed: " ++ e)), s)
  run (from_client (answer p) ∷ events) s =
      let (r, s') = handle_client_packet X head_sha cfg wire api p s in
      after_client r s' (run events) events
  run (from_client (refusal e) ∷ events) s = (some (ok tt), s)
  run (from_broadcast (answer message) ∷ events) s =
      let (r, s') = send_system_message wire message s in run events s'
  run (from_broadcast (refusal e) ∷ events) s = run events s
  run (timer ∷ events) s = run events s
  run (all_closed ∷ events) s = (some (ok tt), s)
  run (elsewhere f ∷ events) s = run events (on_world f s)
