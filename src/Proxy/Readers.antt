-- ===== src/Proxy/Readers.antt =====
-- The two reader tasks in `run` of src/proxy/packet_forwarder.rs, and what the loop takes of the
-- client's channel.
use mathlib.Core.List.{append_assoc, append-nil}
use steel_proxy.Common.{
  Text, ◌≡◌, refl, ap, ◌∙◌, sym, some, List, [], ◌∷◌, ◌++◌, map, All, Result, ok,
}
use steel_proxy.Config.Types.{ProxyConfig}
use steel_proxy.External.{External, Reply, answer, refusal}
use steel_proxy.Packets.Tree.{CommandApi}
use steel_proxy.Proxy.Wire.{Wire, RawPacket, Packet, ConnectionProtocol}
use steel_proxy.Proxy.Session.{S}
use steel_proxy.Proxy.Loop
use steel_proxy.Proxy.Loop.{
  Event, from_backend, from_client, from_broadcast, timer, all_closed, elsewhere, Ended,
}
use steel_proxy.Proxy.Relay.{Works, IsPlain, passed_on}
use steel_proxy.Proxy.Sends.{Sends, system_message-Sends}
use steel_proxy.Proxy.Passes.{client_packet-Sends, backend_packet-Sends}

-- A reader task, from what `get_raw_packet` gives: it sends each packet on its channel, and stops
-- after an error. (When the receiver is gone nothing takes what it sends.)
unfoldable pub reader : List (Reply RawPacket) → List (Reply RawPacket)
reader [] = []
reader (answer p ∷ rest) = answer p ∷ reader rest
reader (refusal e ∷ rest) = refusal e ∷ []

module _ (X : External) (head_sha : X.Json → Reply Text) (cfg : ProxyConfig) (wire : Wire X.E)
    (api : CommandApi wire.Commands) where
  -- What the loop takes of the client's channel.
  abbrev pub client_channel : List (Event X.E) → List (Reply RawPacket)
  client_channel [] = []
  client_channel (from_client r ∷ events) = r ∷ client_channel events
  client_channel (from_backend r ∷ events) = client_channel events
  client_channel (from_broadcast r ∷ events) = client_channel events
  client_channel (timer ∷ events) = client_channel events
  client_channel (all_closed ∷ events) = client_channel events
  client_channel (elsewhere f ∷ events) = client_channel events

  -- A plain event, or the end of the client's side.
  abbrev pub IsOpen : Event X.E → Type 0
  IsOpen (from_client (answer p)) = IsPlain X head_sha cfg wire api (from_client (answer p))
  IsOpen (from_client (refusal e)) = Unit
  IsOpen (from_backend r) = IsPlain X head_sha cfg wire api (from_backend r)
  IsOpen (from_broadcast r) = Unit
  IsOpen timer = Unit
  IsOpen all_closed = ⊥
  IsOpen (elsewhere f) = Unit

  module _ (works : Works wire) where
    -- The session ended without an error, and sent these packets to the backend.
    pub record Delivers (run : Ended × S wire) (s : S wire) (backend : List (Packet wire.Commands))
        : Type 0 where
      pub ends : run.0 ≡ some (ok tt)
      pub to_backend : run.1.to_backend ≡ s.to_backend ++ backend

    abbrev pub forwarded : List RawPacket → S wire → List (Packet wire.Commands)
    forwarded sent s =
        map (λ p. passed_on X head_sha cfg wire api works p s.backend_compression_threshold) sent

    onward {ℓ} :
        {A : Type ℓ} {acted : Result A × S wire} {a : A} {run : Ended × S wire}
        {client : List (Packet wire.Commands)} {c : ConnectionProtocol} (s : S wire)
        (first : List (Packet wire.Commands)) (sent : List RawPacket)
        → Sends wire works acted a s first client c
        → Delivers run acted.1 (forwarded sent acted.1)
        → Delivers run s (first ++ forwarded sent s)
    onward {acted} s first sent h k = record {
      ends = k.ends;
      to_backend =
          k.to_backend
          ∙ ap (λ l. l ++ forwarded sent acted.1) h.to_backend
          ∙ append_assoc s.to_backend first _
          ∙ ap
              (λ t.
                s.to_backend
                ++ (first ++ map (λ p. passed_on X head_sha cfg wire api works p t) sent))
              h.threshold;
    }

    -- However `select!` orders what arrives, on a wire that works, while the backend stays
    -- connected and no packet of the client with a chat command's number has a payload that is
    -- read as one of the proxy's own commands or that makes the reading panic, as a negative
    -- length does: when the loop takes all that the client's reader task sends, up to the error
    -- that ends it, each packet that was read before the error has been sent to the backend once,
    -- in order, and the session ends without an error.
    pub run-Delivers :
        (events : List (Event X.E)) (sent : List RawPacket) (e : Text)
        (more : List (Reply RawPacket)) (s : S wire)
        → All IsOpen events
        → client_channel events ≡ reader (map answer sent ++ (refusal e ∷ more))
        → Delivers (Loop.run X head_sha cfg wire api events s) s (forwarded sent s)
    unfolding Loop.run reader
    run-Delivers [] [] e more s h p = cc
    run-Delivers [] (q ∷ sent) e more s h p = cc
    run-Delivers (from_client (answer q) ∷ events) [] e more s h p = cc
    run-Delivers (from_client (answer q) ∷ events) (q' ∷ sent) e more s h p =
        rw ((client_packet-Sends X head_sha cfg wire api works q s h.0).returns, sym (same p))
          (onward s (passed_on X head_sha cfg wire api works q s.backend_compression_threshold ∷ [])
            sent (client_packet-Sends X head_sha cfg wire api works q s h.0)
            (run-Delivers events sent e more _ h.1 (behind p)))
      where
        same :
            {x y : List (Reply RawPacket)}
            → Path (List (Reply RawPacket)) (answer q ∷ x) (answer q' ∷ y)
            → q ≡ q'
        same h = cc

        behind :
            {x y : List (Reply RawPacket)}
            → Path (List (Reply RawPacket)) (answer q ∷ x) (answer q' ∷ y)
            → x ≡ y
        behind h = cc
    run-Delivers (from_client (refusal m) ∷ events) [] e more s h p = record {
      ends = refl;
      to_backend = sym (append-nil s.to_backend);
    }
    run-Delivers (from_client (refusal m) ∷ events) (q ∷ sent) e more s h p = cc
    run-Delivers (from_backend (answer q) ∷ events) sent e more s h p =
        rw (backend_packet-Sends X head_sha cfg wire api works q s).returns (
          onward s [] sent (backend_packet-Sends X head_sha cfg wire api works q s)
            (run-Delivers events sent e more _ h.1 p))
    run-Delivers (from_backend (refusal m) ∷ events) sent e more s h p = absurd h.0
    run-Delivers (from_broadcast (answer m) ∷ events) sent e more s h p =
        onward s [] sent (system_message-Sends wire works m s)
          (run-Delivers events sent e more _ h.1 p)
    run-Delivers (from_broadcast (refusal m) ∷ events) sent e more s h p =
        run-Delivers events sent e more s h.1 p
    run-Delivers (timer ∷ events) sent e more s h p = run-Delivers events sent e more s h.1 p
    run-Delivers (all_closed ∷ events) sent e more s h p = absurd h.0
    run-Delivers (elsewhere f ∷ events) sent e more s h p =
        elsewhere_first (run-Delivers events sent e more _ h.1 p)
      where
        elsewhere_first :
            {run : Ended × S wire} {b : List (Packet wire.Commands)}
            → Delivers run (Loop.on_world X head_sha cfg wire api f s) b
            → Delivers run s b
        elsewhere_first k = record { ends = k.ends; to_backend = k.to_backend }
