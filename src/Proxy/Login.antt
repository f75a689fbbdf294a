-- ===== src/Proxy/Login.antt =====
-- src/proxy/client_handler.rs: the handshake, the status and the login of a client, up to the
-- choice of its backend. The client's packets are a list of events; other tasks may act between
-- them.
use steel_proxy.Common.{
  ℕ, nat_beq, Bool, false, Option, none, some, Text, codes, List, [], ◌∷◌, ◌++◌, Result, ok, err,
  panic, if◌then◌else◌,
}
use steel_proxy.Common.Exec.{Exec, pure, lift, gets, modify, ◌>>=◌, ◌>>◌}
use steel_proxy.Config.Types.{ProxyConfig, BackendServer}
use steel_proxy.External.{Reply, answer, refusal, to_result}
use steel_proxy.World.{World}
use steel_proxy.Proxy.Backends.{get}
use steel_proxy.Proxy.Server.{get_target_server}
use steel_proxy.Proxy.Wire.{
  ConnectionProtocol, handshake, status, login, config, play, RawPacket, PacketIds,
}

-- steel_protocol's `ClientIntent`
pub data ClientIntent : Type 0 where
  status_intent login_intent transfer_intent : ClientIntent

-- The fields of the status response.
pub record Status : Type 0 where
  pub description : Text
  pub players_max : ℕ
  pub players_online : ℕ
  pub version_name : Text
  pub version_protocol : ℕ
  pub enforce_secure_chat : Bool

-- The packets that the handler sends: CStatusResponse, CPongResponse, CLoginFinished.
pub data Greeting : Type 0 where
  status_response : Status → Greeting
  pong_response : (time : ℕ) → Greeting
  login_finished : (uuid : ℕ) → (name : Text) → Greeting

-- What the handler takes from steel_protocol: reading packets, and encoding and writing its own.
pub record LoginWire (E : Type 0) : Type 1 where
  pub ids : PacketIds
  pub read_intention : List ℕ → Reply ClientIntent
  pub read_ping : List ℕ → Reply ℕ
  pub read_hello : List ℕ → Reply (Text × ℕ)
  pub Frame : Type 0
  pub encode : Greeting → Reply Frame
  pub write_client : Frame → E → Reply (Unit {0}) × E

-- The variables of `run`, what was sent, and the shared world.
pub record Login (E : Type 0) : Type 0 where
  pub protocol : ConnectionProtocol
  pub username : Option Text
  pub player_uuid : Option ℕ
  pub sent : List Greeting
  pub world : World E

unfoldable pub begin : {E : Type 0} → World E → Login E
begin w = record { protocol = handshake; username = none; player_uuid = none; sent = []; world = w }

-- Where a client that has logged in is to be connected.
pub record Target : Type 0 where
  pub backend_name : Text
  pub address : Text
  pub port : ℕ
  pub username : Text
  pub uuid : ℕ

-- After a packet the loop goes on, `run` returns, or the client is connected.
pub data Next : Type 0 where
  goes_on returns : Next
  connects : Target → Next

unfoldable pub status_of_proxy : Status
status_of_proxy = record {
  description = codes "Steel Proxy Server (Offline Mode)";
  players_max = 100;
  players_online = 0;
  version_name = codes "1.21.11";
  version_protocol = 774;
  enforce_secure_chat = false;
}

-- `unwrap` on an option
abbrev pub unwrap {ℓ} : {A : Type ℓ} → Option A → Result A
unwrap none = panic
unwrap (some a) = ok a

abbrev pub unwrap_or {ℓ} : {A : Type ℓ} → Option A → A → A
unwrap_or none d = d
unwrap_or (some a) d = a

abbrev pub found_backend : Option BackendServer → Result BackendServer
found_backend none = err (codes "Backend server not found")
found_backend (some b) = ok b

module _ {E : Type 0} (cfg : ProxyConfig) (wire : LoginWire E) where
  abbrev pub written : Greeting → Reply (Unit {0}) × E → Login E → Result (Unit {0}) × Login E
  written g (answer u, e) s =
      (ok tt, record s { sent = s.sent ++ g ∷ []; world = record s.world { ext = e } })
  written g (refusal m, e) s = (err m, record s { world = record s.world { ext = e } })

  unfoldable pub send : Greeting → Exec (Login E) (Unit {0})
  send g = do
    frame ← lift (to_result (wire.encode g))
    λ s. written g (wire.write_client frame s.world.ext) s

  abbrev pub protocol_for : ClientIntent → ConnectionProtocol
  protocol_for ClientIntent.status_intent = status
  protocol_for ClientIntent.login_intent = login
  protocol_for ClientIntent.transfer_intent = login

  unfoldable pub in_handshake : RawPacket → Exec (Login E) Next
  in_handshake p =
      if nat_beq p.id wire.ids.handshake_intention
      then (do
        intention ← lift (to_result (wire.read_intention p.payload))
        modify (λ s. record s { protocol = protocol_for intention })
        pure goes_on)
      else pure goes_on

  unfoldable pub in_status : RawPacket → Exec (Login E) Next
  in_status p =
      if nat_beq p.id wire.ids.status_request
      then (do send (status_response status_of_proxy); pure goes_on)
      else if nat_beq p.id wire.ids.status_ping_request
      then (do
        time ← lift (to_result (wire.read_ping p.payload))
        send (pong_response time)
        pure returns)
      else pure goes_on

  unfoldable pub on_hello : Text × ℕ → Exec (Login E) Next
  on_hello (name, uuid) = do
    modify (λ s. record s { username = some name; player_uuid = some uuid })
    send (login_finished uuid name)
    pure goes_on

  -- The pending switch is taken, if there is one.
  abbrev pub take_target : ℕ → Exec (Login E) (Option Text)
  take_target uuid s =
      let (target, w) = get_target_server uuid s.world in (ok target, record s { world = w })

  -- The backend of the login: the target of a switch, or else the default server.
  abbrev pub choose_backend : Exec (Login E) Next
  choose_backend = do
    maybe_uuid ← gets (λ s. s.player_uuid)
    uuid ← lift (unwrap maybe_uuid)
    target ← take_target uuid
    let backend_name = unwrap_or target cfg.default_server
    maybe_backend ← gets (λ s. get s.world.backends backend_name)
    backend ← lift (found_backend maybe_backend)
    maybe_username ← gets (λ s. s.username)
    username ← lift (unwrap maybe_username)
    pure (
        connects (record {
          backend_name = backend_name;
          address = backend.address;
          port = backend.port;
          username = username;
          uuid = uuid;
        }))

  unfoldable pub on_acknowledged : Exec (Login E) Next
  on_acknowledged = do modify (λ s. record s { protocol = config }); choose_backend

  unfoldable pub in_login : RawPacket → Exec (Login E) Next
  in_login p =
      if nat_beq p.id wire.ids.login_hello
      then (do hello ← lift (to_result (wire.read_hello p.payload)); on_hello hello)
      else if nat_beq p.id wire.ids.login_acknowledged
      then on_acknowledged
      else pure goes_on

  unfoldable pub on_packet : ConnectionProtocol → RawPacket → Exec (Login E) Next
  on_packet handshake p = in_handshake p
  on_packet status p = in_status p
  on_packet login p = in_login p
  on_packet config p = pure returns
  on_packet play p = pure returns

  -- `packet` is what `get_raw_packet` returns; `others` what other tasks did to the world.
  pub data LoginEvent : Type 0 where
    packet : Reply RawPacket → LoginEvent
    others : (World E → World E) → LoginEvent

  abbrev pub after_packet :
      Result Next
      → Login E
      → (Login E → Option (Result Next) × Login E)
      → Option (Result Next) × Login E
  after_packet (ok goes_on) s rest = rest s
  after_packet (ok returns) s rest = (some (ok returns), s)
  after_packet (ok (connects t)) s rest = (some (ok (connects t)), s)
  after_packet (err e) s rest = (some (err e), s)
  after_packet panic s rest = (some panic, s)

  -- The loop of `run`; `none` is a handler that still waits for a packet.
  unfoldable pub login_loop : List LoginEvent → Login E → Option (Result Next) × Login E
  unfolding on_packet
  login_loop [] s = (none, s)
  login_loop (packet (answer p) ∷ events) s =
      let (r, s') = on_packet s.protocol p s in after_packet r s' (login_loop events)
  login_loop (packet (refusal e) ∷ events) s = (some (err e), s)
  login_loop (others f ∷ events) s = login_loop events (record s { world = f s.world })
