-- ===== src/System/Loops.antt =====
-- The loop of src/proxy/packet_forwarder.rs as a path of steps in the shared state.
use steel_proxy.Common.{Text, List, [], ◌∷◌, Result, ok, err, panic}
use steel_proxy.Config.Types.{ProxyConfig}
use steel_proxy.External.{External, Reply, answer, refusal}
use steel_proxy.World.{World}
use steel_proxy.Packets.Tree.{CommandApi}
use steel_proxy.Proxy.Wire.{Wire}
use steel_proxy.Proxy.Session.{S}
use steel_proxy.Proxy.Commands.{Action, continue, disconnect}
use steel_proxy.Proxy.Loop
use steel_proxy.Proxy.Loop.{
  Event, from_backend, from_client, from_broadcast, timer, all_closed, elsewhere, Ended,
}
use steel_proxy.System.Steps.{Reaches}
use steel_proxy.System.Sessions.{Travels, Travels-Preorder}
use steel_proxy.System.Forwarding.{
  client_packet-Travels, backend_packet-Travels, to_client-Travels, system_message-Travels,
}

-- What the other tasks do between the events of a session is a path of steps.
abbrev pub AreSteps : {E : Type 0} → List (Event E) → Type 0
AreSteps [] = Unit
AreSteps (elsewhere f ∷ events) = ((w : World _) → Reaches w (f w)) × AreSteps events
AreSteps (from_backend p ∷ events) = AreSteps events
AreSteps (from_client p ∷ events) = AreSteps events
AreSteps (from_broadcast m ∷ events) = AreSteps events
AreSteps (timer ∷ events) = AreSteps events
AreSteps (all_closed ∷ events) = AreSteps events

module _ (X : External) (head_sha : X.Json → Reply Text) (cfg : ProxyConfig) (wire : Wire X.E)
    (api : CommandApi wire.Commands) where
  stay : (s : S wire) → Travels wire s s
  stay = (Travels-Preorder wire).stays

  onward : (s t u : S wire) → Travels wire s t → Travels wire t u → Travels wire s u
  onward = (Travels-Preorder wire).joins

  drain-Travels :
      (events : List (Event X.E)) (s : S wire)
      → AreSteps events
      → Travels wire s (Loop.drain_until_client_disconnects X head_sha cfg wire api events s).1
  unfolding Loop.drain_until_client_disconnects
  drain-Travels [] s h = stay s
  drain-Travels (from_backend (answer p) ∷ events) s h =
      onward s _ _ ((to_client-Travels wire p).at s) (drain-Travels events _ h)
  drain-Travels (from_backend (refusal e) ∷ events) s h = drain-Travels events s h
  drain-Travels (from_client (answer p) ∷ events) s h = drain-Travels events s h
  drain-Travels (from_client (refusal e) ∷ events) s h = stay s
  drain-Travels (from_broadcast r ∷ events) s h = drain-Travels events s h
  drain-Travels (timer ∷ events) s h = stay s
  drain-Travels (all_closed ∷ events) s h = drain-Travels events s h
  drain-Travels (elsewhere f ∷ events) s h =
      onward s (record s { world = f s.world }) _ (record { path = h.0 s.world })
        (drain-Travels events _ h.1)

  after_backend-Travels :
      (r : Result (Unit {0})) (s : S wire) (rest : S wire → Ended × S wire)
      → Travels wire s (rest s).1
      → Travels wire s (Loop.after_backend X head_sha cfg wire api r s rest).1
  after_backend-Travels (ok u) s rest h = h
  after_backend-Travels (err e) s rest h = stay s
  after_backend-Travels panic s rest h = stay s

  after_client-Travels :
      (r : Result Action) (s : S wire) (rest : S wire → Ended × S wire) (events : List (Event X.E))
      → Travels wire s (rest s).1
      → AreSteps events
      → Travels wire s (Loop.after_client X head_sha cfg wire api r s rest events).1
  after_client-Travels (ok continue) s rest events h m = h
  after_client-Travels (ok disconnect) s rest events h m = drain-Travels events s m
  after_client-Travels (err e) s rest events h m = stay s
  after_client-Travels panic s rest events h m = stay s

  pub run-Travels :
      (events : List (Event X.E)) (s : S wire)
      → AreSteps events
      → Travels wire s (Loop.run X head_sha cfg wire api events s).1
  unfolding Loop.run
  run-Travels [] s h = stay s
  run-Travels (from_backend (answer p) ∷ events) s h =
      onward s _ _ ((backend_packet-Travels X head_sha cfg wire api p).at s) (
        after_backend-Travels _ _ (Loop.run X head_sha cfg wire api events)
          (run-Travels events _ h))
  run-Travels (from_backend (refusal e) ∷ events) s h = stay s
  run-Travels (from_client (answer p) ∷ events) s h =
      onward s _ _ ((client_packet-Travels X head_sha cfg wire api p).at s) (
        after_client-Travels _ _ (Loop.run X head_sha cfg wire api events) events
          (run-Travels events _ h) h)
  run-Travels (from_client (refusal e) ∷ events) s h = stay s
  run-Travels (from_broadcast (answer message) ∷ events) s h =
      onward s _ _ ((system_message-Travels wire message).at s) (run-Travels events _ h)
  run-Travels (from_broadcast (refusal e) ∷ events) s h = run-Travels events s h
  run-Travels (timer ∷ events) s h = run-Travels events s h
  run-Travels (all_closed ∷ events) s h = stay s
  run-Travels (elsewhere f ∷ events) s h =
      onward s (record s { world = f s.world }) _ (record { path = h.0 s.world })
        (run-Travels events _ h.1)
