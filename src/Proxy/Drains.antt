-- ===== src/Proxy/Drains.antt =====
-- The end of a session in src/proxy/packet_forwarder.rs: `/server` with a known name, and
-- `drain_until_client_disconnects` after it.
use mathlib.Core.List.{append_assoc, append-nil}
use steel_proxy.Common.{
  Text, ◌≡◌, refl, ap, ◌∙◌, sym, Bool, true, false, none, some, List, [], ◌∷◌, ◌++◌, Result, ok,
}
use steel_proxy.Config.Types.{ProxyConfig}
use steel_proxy.External.{External, Reply, answer, refusal}
use steel_proxy.Packets.Tree.{CommandApi}
use steel_proxy.Proxy.Wire.{Wire, Packet, ConnectionProtocol}
use steel_proxy.Proxy.Session.{S}
use steel_proxy.Proxy.Loop
use steel_proxy.Proxy.Loop.{
  Event, from_backend, from_client, from_broadcast, timer, all_closed, elsewhere, Ended,
}
use steel_proxy.Proxy.Relay.{Works, passed_on}
use steel_proxy.Proxy.Sends.{Sends, to_client-Sends}

module _ (X : External) (head_sha : X.Json → Reply Text) (cfg : ProxyConfig) (wire : Wire X.E)
    (api : CommandApi wire.Commands) where
  -- Whether the client disconnects or the two seconds are over.
  abbrev pub gone : List (Event X.E) → Bool
  gone [] = false
  gone (from_client (refusal e) ∷ events) = true
  gone (timer ∷ events) = true
  gone (from_client (answer p) ∷ events) = gone events
  gone (from_backend r ∷ events) = gone events
  gone (from_broadcast r ∷ events) = gone events
  gone (all_closed ∷ events) = gone events
  gone (elsewhere f ∷ events) = gone events

  abbrev pub outcome : Bool → Ended
  outcome true = some (ok tt)
  outcome false = none

  module _ (works : Works wire) where
    -- The backend's packets until then, uncompressed.
    abbrev pub in_flight : List (Event X.E) → List (Packet wire.Commands)
    in_flight [] = []
    in_flight (from_client (refusal e) ∷ events) = []
    in_flight (timer ∷ events) = []
    in_flight (from_backend (answer p) ∷ events) =
        passed_on X head_sha cfg wire api works p none ∷ in_flight events
    in_flight (from_backend (refusal e) ∷ events) = in_flight events
    in_flight (from_client (answer p) ∷ events) = in_flight events
    in_flight (from_broadcast r ∷ events) = in_flight events
    in_flight (all_closed ∷ events) = in_flight events
    in_flight (elsewhere f ∷ events) = in_flight events

    -- How the session ended, and what it sent.
    pub record Drains (run : Ended × S wire) (s : S wire) (ended : Bool)
        (backend client : List (Packet wire.Commands)) : Type 0 where
      pub ends : run.0 ≡ outcome ended
      pub to_backend : run.1.to_backend ≡ s.to_backend ++ backend
      pub to_client : run.1.to_client ≡ s.to_client ++ client

    still : (e : Bool) (s : S wire) → Drains (outcome e, s) s e [] []
    still e s = record {
      ends = refl;
      to_backend = sym (append-nil s.to_backend);
      to_client = sym (append-nil s.to_client);
    }

    pub after {ℓ} :
        {A : Type ℓ} {acted : Result A × S wire} {a : A} {run : Ended × S wire} {s : S wire}
        {c : ConnectionProtocol} {ended : Bool} (first rest : List (Packet wire.Commands))
        → Sends wire works acted a s [] first c
        → Drains run acted.1 ended [] rest
        → Drains run s ended [] (first ++ rest)
    after {s} first rest h k = record {
      ends = k.ends;
      to_backend = k.to_backend ∙ ap (λ l. l ++ []) h.to_backend ∙ append-nil (s.to_backend ++ []);
      to_client =
          k.to_client ∙ ap (λ l. l ++ rest) h.to_client ∙ append_assoc s.to_client first rest;
    }

    pub drain-Drains :
        (events : List (Event X.E)) (s : S wire)
        → Drains
            (Loop.drain_until_client_disconnects X head_sha cfg wire api events s)
            s
            (gone events)
            []
            (in_flight events)
    unfolding Loop.drain_until_client_disconnects
    drain-Drains [] s = still false s
    drain-Drains (from_backend (answer p) ∷ events) s =
        after (passed_on X head_sha cfg wire api works p none ∷ []) (in_flight events)
          (to_client-Sends wire works p s) (drain-Drains events _)
    drain-Drains (from_backend (refusal e) ∷ events) s = drain-Drains events s
    drain-Drains (from_client (answer p) ∷ events) s = drain-Drains events s
    drain-Drains (from_client (refusal e) ∷ events) s = still true s
    drain-Drains (from_broadcast r ∷ events) s = drain-Drains events s
    drain-Drains (timer ∷ events) s = still true s
    drain-Drains (all_closed ∷ events) s = drain-Drains events s
    drain-Drains (elsewhere f ∷ events) s = elsewhere_first (drain-Drains events _)
      where
        elsewhere_first :
            {run : Ended × S wire} {ended : Bool} {b c : List (Packet wire.Commands)}
            → Drains run (Loop.on_world X head_sha cfg wire api f s) ended b c
            → Drains run s ended b c
        elsewhere_first k = record {
          ends = k.ends;
          to_backend = k.to_backend;
          to_client = k.to_client;
        }
