-- ===== src/Proxy/Session.antt =====
-- The state of a `PacketForwarder` (src/proxy/packet_forwarder.rs) with the world that it
-- shares, and the two ways to send. What was sent is recorded, oldest first.
use steel_proxy.Common.{ℕ, Text, Option, none, some, List, [], ◌∷◌, ◌++◌, Result, ok, err}
use steel_proxy.Common.Exec.{Exec, lift, ◌>>=◌}
use steel_proxy.External.{Reply, answer, refusal, to_result}
use steel_proxy.World.{World}
use steel_proxy.Proxy.Wire.{Wire, Packet, ConnectionProtocol, config}

pub record Session (E Commands : Type 0) : Type 0 where
  pub client_id : ℕ
  pub player_uuid : ℕ
  pub current_backend : Text
  pub current_protocol : ConnectionProtocol
  pub backend_compression_threshold : Option ℕ
  pub permission_level : ℕ  -- u8
  pub entity_id : Option ℕ
  pub to_client : List (Packet Commands)
  pub to_backend : List (Packet Commands)
  pub world : World E

-- `PacketForwarder::new`
unfoldable pub new :
    {E : Type 0} (Commands : Type 0)
    → (client_id player_uuid : ℕ) → Text
    → Option ℕ
    → World E
    → Session E Commands
new Commands client_id player_uuid current_backend threshold w = record {
  client_id = client_id;
  player_uuid = player_uuid;
  current_backend = current_backend;
  current_protocol = config;
  backend_compression_threshold = threshold;
  permission_level = 0;
  entity_id = none;
  to_client = [];
  to_backend = [];
  world = w;
}

-- An action on the shared world.
unfoldable pub in_world {ℓ} :
    {E Commands : Type 0} {A : Type ℓ} → Exec (World E) A → Exec (Session E Commands) A
in_world m s = let (r, w) = m s.world in (r, record s { world = w })

module _ {E : Type 0} (wire : Wire E) where
  abbrev pub S : Type 0
  S = Session E wire.Commands

  -- The text of a failed write: `.context(c)`'s, or its own.
  abbrev pub write_error : Option Text → Text → Text
  write_error none m = m
  write_error (some c) m = c

  abbrev pub write_result : Option Text → (S → S) → Reply (Unit {0}) × E → S → Result (Unit {0}) × S
  write_result c sent (answer u, e) s =
      (ok tt, sent (record s { world = record s.world { ext = e } }))
  write_result c sent (refusal m, e) s =
      (err (write_error c m), record s { world = record s.world { ext = e } })

  abbrev pub sent_to_client : Packet wire.Commands → S → S
  sent_to_client p s = record s { to_client = s.to_client ++ p ∷ [] }

  abbrev pub sent_to_backend : Packet wire.Commands → S → S
  sent_to_backend p s = record s { to_backend = s.to_backend ++ p ∷ [] }

  -- Encode, then write to the client. The option is a context for the write's error.
  unfoldable pub send_client : Option Text → Packet wire.Commands → Exec S (Unit {0})
  send_client c p = do
    frame ← lift (to_result (wire.encode p))
    λ s. write_result c (sent_to_client p) (wire.write_client frame s.world.ext) s

  unfoldable pub send_backend : Option Text → Packet wire.Commands → Exec S (Unit {0})
  send_backend c p = do
    frame ← lift (to_result (wire.encode p))
    λ s. write_result c (sent_to_backend p) (wire.write_backend frame s.world.ext) s
