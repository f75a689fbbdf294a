-- ===== src/Proxy/Connector.antt =====
-- src/proxy/backend_connector.rs: how the proxy logs a player in at a backend.
use steel_proxy.Common.{
  ℕ, ◌%◌, ◌^◌, nat_beq, ltb, Bool, ◌&&◌, Option, none, some, Text, codes, show, List, [], ◌∷◌, ◌++◌,
  length, Result, ok, err, panic, if◌then◌else◌,
}
use steel_proxy.Common.Exec.{Exec, pure, lift, ◌>>=◌, ◌>>◌}
use steel_proxy.Common.Utf8.{as_bytes}
use steel_proxy.External.{Reply, answer, refusal, to_result}
use steel_proxy.Packets.{append_reply}
use steel_proxy.Proxy.Wire.{Wire, RawPacket, Packet, bytes}

pub record BackendConnector : Type 0 where
  pub address : Text
  pub port : ℕ
  pub username : Text
  pub uuid : ℕ

-- What the connector takes from outside besides the encoding of packets: the TCP connection, steel
-- utils' way to write a u16 and a UUID, and the number of the intent LOGIN.
pub record Dial (E : Type 0) : Type 0 where
  pub tcp_connect : Text → E → Reply (Unit {0}) × E
  pub write_u16 : ℕ → Reply (List ℕ)
  pub write_uuid : ℕ → Reply (List ℕ)
  pub intent_login : ℕ

-- The bytes in front of a list of them, each of which may fail to be written.
unfoldable pub write_all : List (Reply (List ℕ)) → Reply (List ℕ)
write_all [] = answer []
write_all (r ∷ rest) = append_reply r (write_all rest)

-- What was sent, oldest first, and the world outside.
pub record Dialled (E Commands : Type 0) : Type 0 where
  pub sent : List (Packet Commands)
  pub ext : E

module _ {E : Type 0} (wire : Wire E) (dial : Dial E) where
  abbrev pub D : Type 0
  D = Dialled E wire.Commands

  abbrev pub connect_result : Reply (Unit {0}) × E → D → Result (Unit {0}) × D
  connect_result (answer u, e) s = (ok tt, record s { ext = e })
  connect_result (refusal m, e) s =
      (err (codes "Failed to connect to backend server"), record s { ext = e })

  unfoldable pub open_connection : BackendConnector → Exec D (Unit {0})
  open_connection c s =
      connect_result (dial.tcp_connect (c.address ++ (codes ":" ++ show c.port)) s.ext) s

  abbrev pub write_result : Packet wire.Commands → Reply (Unit {0}) × E → D → Result (Unit {0}) × D
  write_result p (answer u, e) s = (ok tt, record s { sent = s.sent ++ p ∷ []; ext = e })
  write_result p (refusal m, e) s = (err m, record s { ext = e })

  -- Write the bytes of a packet, encode it with a threshold for compression or none, and send it.
  unfoldable pub send_bytes : Option ℕ → Reply (List ℕ) → Exec D (Unit {0})
  send_bytes threshold content = do
    buf ← lift (to_result content)
    frame ← lift (to_result (wire.encode (bytes buf threshold)))
    λ s. write_result (bytes buf threshold) (wire.write_backend frame s.ext) s

  abbrev pub prefixed_text : Text → List (Reply (List ℕ)) → List (Reply (List ℕ))
  prefixed_text t rest =
      wire.write_varint (length (as_bytes t) % 2 ^ 32) ∷ answer (as_bytes t) ∷ rest

  unfoldable pub handshake_packet : BackendConnector → Reply (List ℕ)
  handshake_packet c = write_all (
      wire.write_varint wire.ids.handshake_intention
      ∷ wire.write_varint 774
      ∷ prefixed_text c.address (dial.write_u16 c.port ∷ wire.write_varint dial.intent_login ∷ []))

  unfoldable pub hello_packet : BackendConnector → Reply (List ℕ)
  hello_packet c = write_all (
      wire.write_varint wire.ids.login_hello
      ∷ prefixed_text c.username (dial.write_uuid c.uuid ∷ []))

  -- `threshold.0 > 0`, an i32
  abbrev pub is_positive : ℕ → Bool
  is_positive n = ltb 0 n && ltb n (2 ^ 31)

  abbrev pub next_threshold : ℕ → Option ℕ → Option ℕ
  next_threshold n old = if is_positive n then some n else old

  abbrev pub on_compression :
      Reply (ℕ × List ℕ)
      → Option ℕ
      → (Option ℕ → Option (Result (Option ℕ)))
      → Option (Result (Option ℕ))
  on_compression (answer (n, after)) old rest = rest (next_threshold n old)
  on_compression (refusal e) old rest = some (err e)

  -- The loop over the backend's packets, from a threshold to the one that holds in the end; `none`
  -- is a connector that still waits.
  unfoldable pub negotiate : List (Reply RawPacket) → Option ℕ → Option (Result (Option ℕ))
  negotiate [] threshold = none
  negotiate (refusal e ∷ packets) threshold = some (err e)
  negotiate (answer p ∷ packets) threshold =
      if nat_beq p.id wire.ids.login_compression
      then on_compression (wire.read_varint p.payload) threshold (negotiate packets)
      else if nat_beq p.id wire.ids.login_finished
      then some (ok threshold)
      else some (err (codes "Unexpected packet from backend during login: ID=" ++ show p.id))

  -- The login up to the answer of the backend.
  unfoldable pub introduce : BackendConnector → Exec D (Unit {0})
  introduce c = do
    open_connection c
    send_bytes none (handshake_packet c)
    send_bytes none (hello_packet c)

  unfoldable pub acknowledge : Option ℕ → Exec D (Option ℕ)
  acknowledge threshold = do
    send_bytes threshold (wire.write_varint wire.ids.login_acknowledged)
    pure threshold

  abbrev pub answered : Option (Result (Option ℕ)) → D → Option (Result (Option ℕ)) × D
  answered none s = (none, s)
  answered (some (ok threshold)) s = let (r, s') = acknowledge threshold s in (some r, s')
  answered (some (err e)) s = (some (err e), s)
  answered (some panic) s = (some panic, s)

  abbrev pub introduced :
      Result (Unit {0}) → D → List (Reply RawPacket) → Option (Result (Option ℕ)) × D
  introduced (ok u) s packets = answered (negotiate packets none) s
  introduced (err e) s packets = (some (err e), s)
  introduced panic s packets = (some panic, s)

  -- `connect`, given what the backend sends: the threshold for compression, if one was set.
  unfoldable pub connect :
      BackendConnector → List (Reply RawPacket) → D → Option (Result (Option ℕ)) × D
  unfolding introduce negotiate acknowledge
  connect c packets s = let (r, s') = introduce c s in introduced r s' packets
