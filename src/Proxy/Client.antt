-- ===== src/Proxy/Client.antt =====
-- `ClientHandler::run` of src/proxy/client_handler.rs and `handle_client` of src/proxy.rs: the
-- login, the connection to the backend, and the forwarding of packets, one after the other.
use steel_proxy.Common.{ℕ, Option, none, some, Text, List, [], Result, ok, err, panic}
use steel_proxy.Config.Types.{ProxyConfig}
use steel_proxy.External.{External, Reply}
use steel_proxy.World.{World}
use steel_proxy.Packets.Tree.{CommandApi}
use steel_proxy.Proxy.Server.{next_client}
use steel_proxy.Proxy.Wire.{Wire, RawPacket}
use steel_proxy.Proxy.Session
use steel_proxy.Proxy.Loop
use steel_proxy.Proxy.Loop.{Event, Ended}
use steel_proxy.Proxy.Login
use steel_proxy.Proxy.Login.{LoginWire, LoginEvent, Next, goes_on, returns, connects, Target}
use steel_proxy.Proxy.Connector
use steel_proxy.Proxy.Connector.{Dial, Dialled, BackendConnector}

-- What a client and its backend do: the events of the login, the backend's answers to the login of
-- the proxy, and the events of the forwarder.
pub record Script {E : Type 0} (cfg : ProxyConfig) (login_wire : LoginWire E) : Type 0 where
  pub login_events : List (LoginEvent cfg login_wire)
  pub backend_packets : List (Reply RawPacket)
  pub events : List (Event E)

unfoldable pub connector_for : Target → BackendConnector
connector_for t = record {
  address = t.address;
  port = t.port;
  username = t.username;
  uuid = t.uuid;
}

module _ (X : External) (head_sha : X.Json → Reply Text) (cfg : ProxyConfig) (wire : Wire X.E)
    (login_wire : LoginWire X.E) (dial : Dial X.E) (api : CommandApi wire.Commands) where
  -- The forwarder, once the backend has answered; `none` is a task that still waits.
  unfoldable pub forward :
      ℕ → Target → List (Event X.E) → Option (Result (Option ℕ)) → World X.E → Ended × World X.E
  forward client_id t events none w = (none, w)
  forward client_id t events (some (ok threshold)) w =
      let s = Session.new wire.Commands client_id t.uuid t.backend_name threshold w in
      let (ended, s') = Loop.run X head_sha cfg wire api events s in (ended, s'.world)
  forward client_id t events (some (err e)) w = (some (err e), w)
  forward client_id t events (some panic) w = (some panic, w)

  unfoldable pub connect_and_forward :
      ℕ → Target → Script cfg login_wire → World X.E → Ended × World X.E
  unfolding forward
  connect_and_forward client_id t script w =
      let (r, d) =
        Connector.connect wire dial (connector_for t) script.backend_packets
          (record { sent = []; ext = w.ext }) in
      forward client_id t script.events r (record w { ext = d.ext })

  abbrev pub after_login :
      ℕ → Script cfg login_wire → Option (Result Next) → World X.E → Ended × World X.E
  after_login client_id script none w = (none, w)
  after_login client_id script (some (ok goes_on)) w = (none, w)
  after_login client_id script (some (ok returns)) w = (some (ok tt), w)
  after_login client_id script (some (ok (connects t))) w = connect_and_forward client_id t script w
  after_login client_id script (some (err e)) w = (some (err e), w)
  after_login client_id script (some panic) w = (some panic, w)

  -- `run`
  unfoldable pub run_client : ℕ → Script cfg login_wire → World X.E → Ended × World X.E
  unfolding connect_and_forward
  run_client client_id script w =
      let (next, l) = Login.login_loop cfg login_wire script.login_events (Login.begin w) in
      after_login client_id script next l.world

  -- An error of `run` is logged.
  abbrev pub logged : Ended → Ended
  logged none = none
  logged (some (ok u)) = some (ok tt)
  logged (some (err e)) = some (ok tt)
  logged (some panic) = some panic

  unfoldable pub handle_client : Script cfg login_wire → World X.E → Ended × World X.E
  handle_client script w =
      let (client_id, w1) = next_client w in
      let (ended, w2) = run_client client_id script w1 in (logged ended, w2)
