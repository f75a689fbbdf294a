-- ===== src/Proxy/Relayed.antt =====
-- The loop of src/proxy/packet_forwarder.rs against a proxy that only passes packets on.
use mathlib.Core.List.{append_assoc, append-nil}
use steel_proxy.Common.{Text, ◌≡◌, refl, ap, ◌∙◌, sym, none, List, [], ◌∷◌, ◌++◌, All, Result, ok}
use steel_proxy.Config.Types.{ProxyConfig}
use steel_proxy.External.{External, Reply, answer, refusal}
use steel_proxy.Packets.Tree.{CommandApi}
use steel_proxy.Proxy.Wire.{Wire, Packet, ConnectionProtocol}
use steel_proxy.Proxy.Session.{S}
use steel_proxy.Proxy.Commands.{Action, continue}
use steel_proxy.Proxy.Handlers.{handle_client_packet, handle_backend_packet}
use steel_proxy.Proxy.Loop
use steel_proxy.Proxy.Loop.{
  Event, from_backend, from_client, from_broadcast, timer, all_closed, elsewhere, Ended,
}
use steel_proxy.Proxy.Relay.{Works, IsPlain, passed_on, followed, shown, for_backend, for_client}
use steel_proxy.Proxy.Sends.{Sends, system_message-Sends}
use steel_proxy.Proxy.Passes.{client_packet-Sends, backend_packet-Sends}

appended {ℓ} :
    {A : Type ℓ} {all now rest later : List A} (before first : List A)
    → all ≡ now ++ rest
    → now ≡ before ++ first
    → rest ≡ later
    → all ≡ before ++ (first ++ later)
appended {rest} before first p q r =
    p ∙ ap (λ l. l ++ rest) q ∙ append_assoc before first rest ∙ ap (λ l. before ++ (first ++ l)) r

module _ (X : External) (head_sha : X.Json → Reply Text) (cfg : ProxyConfig) (wire : Wire X.E)
    (api : CommandApi wire.Commands) (works : Works wire) where
  -- The loop still waits, and has sent these packets.
  pub record Relays (run : Ended × S wire) (s : S wire)
      (backend client : List (Packet wire.Commands)) : Type 0 where
    pub waits : run.0 ≡ none
    pub to_backend : run.1.to_backend ≡ s.to_backend ++ backend
    pub to_client : run.1.to_client ≡ s.to_client ++ client

  -- One action, then the rest of the loop.
  onward {ℓ} :
      {A : Type ℓ} {acted : Result A × S wire} {a : A} {run : Ended × S wire}
      {c : ConnectionProtocol} (s : S wire) (b1 c1 : List (Packet wire.Commands))
      (events : List (Event X.E))
      → Sends wire works acted a s b1 c1 c
      → Relays run acted.1
          (for_backend X head_sha cfg wire api works acted.1.backend_compression_threshold events)
          (for_client X head_sha cfg wire api works acted.1.current_protocol events)
      → Relays run s
          (b1 ++ for_backend X head_sha cfg wire api works s.backend_compression_threshold events)
          (c1 ++ for_client X head_sha cfg wire api works c events)
  onward s b1 c1 events h k = record {
    waits = k.waits;
    to_backend =
        appended s.to_backend b1 k.to_backend h.to_backend
          (ap (λ t. for_backend X head_sha cfg wire api works t events) h.threshold);
    to_client =
        appended s.to_client c1 k.to_client h.to_client
          (ap (λ p. for_client X head_sha cfg wire api works p events) h.protocol);
  }

  goes_on_backend :
      (r : Result (Unit {0})) (s t : S wire) (rest : S wire → Ended × S wire)
      (b c : List (Packet wire.Commands))
      → r ≡ ok tt
      → Relays (rest t) s b c
      → Relays (Loop.after_backend X head_sha cfg wire api r t rest) s b c
  goes_on_backend r s t rest b c e h = rw e h

  goes_on_client :
      (r : Result Action) (s t : S wire) (rest : S wire → Ended × S wire)
      (events : List (Event X.E)) (b c : List (Packet wire.Commands))
      → r ≡ ok continue
      → Relays (rest t) s b c
      → Relays (Loop.after_client X head_sha cfg wire api r t rest events) s b c
  goes_on_client r s t rest events b c e h = rw e h

  -- On a wire that works, while the two sides stay connected and no packet of the client with a
  -- chat command's number has a payload that is read as one of the proxy's own commands or that
  -- makes the reading panic, as a negative length does, the loop goes on, and what it sends is
  -- what a proxy that only passes packets on sends: to the backend the client's packets in their
  -- order, compressed as the backend asked, and to the client the backend's packets and the
  -- broadcasts in their order, with the proxy's own tree in the place of a Commands packet of the
  -- play state.
  pub run-Relays :
      (events : List (Event X.E)) (s : S wire)
      → All (IsPlain X head_sha cfg wire api) events
      → Relays
          (Loop.run X head_sha cfg wire api events s)
          s
          (for_backend X head_sha cfg wire api works s.backend_compression_threshold events)
          (for_client X head_sha cfg wire api works s.current_protocol events)
  unfolding Loop.run
  run-Relays [] s h = record {
    waits = refl;
    to_backend = sym (append-nil s.to_backend);
    to_client = sym (append-nil s.to_client);
  }
  run-Relays (from_backend (answer p) ∷ events) s h =
      goes_on_backend _ s _ (Loop.run X head_sha cfg wire api events) _ _ sent.returns
        (onward s [] _ events sent (run-Relays events _ h.1))
    where
      sent :
          Sends wire works
            (handle_backend_packet X head_sha cfg wire api p s)
            tt
            s
            []
            (shown X head_sha cfg wire api works p s.current_protocol ∷ [])
            s.current_protocol
      sent = backend_packet-Sends X head_sha cfg wire api works p s
  run-Relays (from_backend (refusal e) ∷ events) s h = absurd h.0
  run-Relays (from_client (answer p) ∷ events) s h =
      goes_on_client _ s _ (Loop.run X head_sha cfg wire api events) events _ _ sent.returns
        (onward s _ [] events sent (run-Relays events _ h.1))
    where
      sent :
          Sends wire works
            (handle_client_packet X head_sha cfg wire api p s)
            continue
            s
            (passed_on X head_sha cfg wire api works p s.backend_compression_threshold ∷ [])
            []
            (followed X head_sha cfg wire api works p s.current_protocol)
      sent = client_packet-Sends X head_sha cfg wire api works p s h.0
  run-Relays (from_client (refusal e) ∷ events) s h = absurd h.0
  run-Relays (from_broadcast (answer m) ∷ events) s h =
      onward s [] _ events (system_message-Sends wire works m s) (run-Relays events _ h.1)
  run-Relays (from_broadcast (refusal e) ∷ events) s h = run-Relays events s h.1
  run-Relays (timer ∷ events) s h = run-Relays events s h.1
  run-Relays (all_closed ∷ events) s h = absurd h.0
  run-Relays (elsewhere f ∷ events) s h =
      elsewhere_first (run-Relays events (Loop.on_world X head_sha cfg wire api f s) h.1)
    where
      elsewhere_first :
          {run : Ended × S wire} {b c : List (Packet wire.Commands)}
          → Relays run (Loop.on_world X head_sha cfg wire api f s) b c
          → Relays run s b c
      elsewhere_first k = record {
        waits = k.waits;
        to_backend = k.to_backend;
        to_client = k.to_client;
      }
