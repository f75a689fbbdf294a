-- ===== src/Proxy/Sends.antt =====
-- What the handlers of src/proxy/packet_forwarder.rs send on a wire on which every packet can be
-- encoded and written.
use mathlib.Core.List.{append-nil}
use steel_proxy.Common.{
  Text, ◌≡◌, refl, ap, ◌∙◌, sym, Option, none, List, [], ◌∷◌, ◌++◌, Result, ok,
}
use steel_proxy.Common.Exec.{Exec, pure, ◌>>◌}
use steel_proxy.Packets.Tree.{CommandApi, build_commands}
use steel_proxy.Proxy.Wire.{
  Wire, RawPacket, Packet, bytes, system_chat, command_tree, ConnectionProtocol, play,
}
use steel_proxy.Proxy.Session.{S, send_client, send_backend}
use steel_proxy.Proxy.Forward
use steel_proxy.Proxy.Forward.{parse_command_from_payload}
use steel_proxy.Proxy.Relay.{Works}

module _ {E : Type 0} (wire : Wire E) (works : Works wire) where
  -- An action that returns a value and sends packets, from a state that it leaves alone otherwise.
  pub record Sends {ℓ} {A : Type ℓ} (run : Result A × S wire) (a : A) (s : S wire)
      (backend client : List (Packet wire.Commands)) (c : ConnectionProtocol) : Type ℓ where
    pub returns : run.0 ≡ ok a
    pub to_backend : run.1.to_backend ≡ s.to_backend ++ backend
    pub to_client : run.1.to_client ≡ s.to_client ++ client
    pub protocol : run.1.current_protocol ≡ c
    pub threshold : run.1.backend_compression_threshold ≡ s.backend_compression_threshold

  -- The same from a state with the same packets sent and the same threshold.
  pub Sends-from {ℓ} :
      {A : Type ℓ} {run : Result A × S wire} {a : A} {backend client : List (Packet wire.Commands)}
      {c c' : ConnectionProtocol} (s t : S wire)
      → t.to_backend ≡ s.to_backend
      → t.to_client ≡ s.to_client
      → t.backend_compression_threshold ≡ s.backend_compression_threshold
      → c ≡ c'
      → Sends run a t backend client c
      → Sends run a s backend client c'
  Sends-from {backend} {client} s t eb ec et ep h = record {
    returns = h.returns;
    to_backend = h.to_backend ∙ ap (λ l. l ++ backend) eb;
    to_client = h.to_client ∙ ap (λ l. l ++ client) ec;
    protocol = h.protocol ∙ ep;
    threshold = h.threshold ∙ et;
  }

  pub then-Sends {ℓ} :
      {A : Type ℓ} (m : Exec (S wire) (Unit {0})) {backend client : List (Packet wire.Commands)}
      {c : ConnectionProtocol} (s t : S wire) (a : A)
      → Sends (m t) tt s backend client c
      → Sends ((m >> pure a) t) a s backend client c
  then-Sends m s t a h = rw h.returns (record {
    returns = refl;
    to_backend = h.to_backend;
    to_client = h.to_client;
    protocol = h.protocol;
    threshold = h.threshold;
  })

  pub send_client-Sends :
      (c : Option Text) (p : Packet wire.Commands) (s : S wire)
      → Sends (send_client wire c p s) tt s [] (p ∷ []) s.current_protocol
  unfolding send_client
  send_client-Sends c p s =
      rw (works.encoded, works.client_open)
        (record {
          returns = refl;
          to_backend = sym (append-nil s.to_backend);
          to_client = refl;
          protocol = refl;
          threshold = refl;
        })

  send_backend-Sends :
      (c : Option Text) (p : Packet wire.Commands) (s : S wire)
      → Sends (send_backend wire c p s) tt s (p ∷ []) [] s.current_protocol
  unfolding send_backend
  send_backend-Sends c p s =
      rw (works.encoded, works.backend_open)
        (record {
          returns = refl;
          to_backend = refl;
          to_client = sym (append-nil s.to_client);
          protocol = refl;
          threshold = refl;
        })

  pub to_client-Sends :
      (p : RawPacket) (s : S wire)
      → Sends
          (Forward.forward_to_client wire p s)
          tt
          s
          []
          (bytes (works.number p.id ++ p.payload) none ∷ [])
          s.current_protocol
  unfolding Forward.forward_to_client Forward.reencoded
  to_client-Sends p s = rw works.numbered (send_client-Sends _ _ s)

  pub to_backend-Sends :
      (p : RawPacket) (s : S wire)
      → Sends
          (Forward.forward_to_backend wire p s)
          tt
          s
          (bytes (works.number p.id ++ p.payload) s.backend_compression_threshold ∷ [])
          []
          s.current_protocol
  unfolding Forward.forward_to_backend Forward.reencoded
  to_backend-Sends p s = rw works.numbered (send_backend-Sends _ _ s)

  pub system_message-Sends :
      (m : Text) (s : S wire)
      → Sends
          (Forward.send_system_message wire m s)
          tt
          s
          []
          (system_chat m play ∷ [])
          s.current_protocol
  unfolding Forward.send_system_message
  system_message-Sends m s = send_client-Sends _ _ s

  pub commands-Sends :
      (api : CommandApi wire.Commands) (s : S wire)
      → Sends
          (Forward.send_commands_packet wire api s)
          tt
          s
          []
          (command_tree (build_commands api) play ∷ [])
          s.current_protocol
  unfolding Forward.send_commands_packet
  commands-Sends api s = send_client-Sends _ _ s
