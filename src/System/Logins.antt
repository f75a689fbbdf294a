-- ===== src/System/Logins.antt =====
-- The login of a client (src/proxy/client_handler.rs) as a path of steps in the shared state.
use steel_proxy.Common.{ℕ, Text, Option, some, List, [], ◌∷◌, Result, ok, err, panic, refl, ◌≡◌}
use steel_proxy.Common.Exec.{pure, lift, modify, ◌>>◌}
use steel_proxy.Common.Walks.{Preorder, Walks, walks_rules, Walks-bind, Walks-pure, Walks-lift}
use steel_proxy.Config.Types.{ProxyConfig}
use steel_proxy.External.{Reply, answer, refusal, to_result}
use steel_proxy.World.{World}
use steel_proxy.Proxy.Wire.{RawPacket, ConnectionProtocol, handshake, status, login, config, play}
use steel_proxy.Proxy.Login
use steel_proxy.Proxy.Login.{
  LoginWire, Login, LoginEvent, packet, others, Next, goes_on, returns, connects, Greeting,
  login_finished,
}
use steel_proxy.System.Steps.{Reaches, arrived, step, calls, takes}
use steel_proxy.System.Sessions.{Along, Along-Preorder}

module _ {E : Type 0} (cfg : ProxyConfig) (wire : LoginWire E) where
  abbrev Goes : Login E → Login E → Type 0
  Goes = Along (λ l. l.world)

  Goes-Preorder : Preorder Goes
  Goes-Preorder = Along-Preorder (λ l. l.world)

  own-Goes :
      (f : Login E → Login E) → ((l : Login E) → (f l).world ≡ l.world) → Walks Goes (modify f)
  own-Goes f h = record { at = λ l. record { path = rw h (arrived l.world) } }

  send-Goes : (g : Greeting) → Walks Goes (Login.send cfg wire g)
  unfolding Login.send
  send-Goes g =
      Walks-bind Goes-Preorder (lift (to_result (wire.encode g))) _ (Walks-lift Goes-Preorder _)
        λ frame. record { at = λ l. written l (wire.write_client frame l.world.ext) }
    where
      written : (l : Login E) (r : Reply (Unit {0}) × E) → Goes l (Login.written cfg wire g r l).1
      written l (answer u, e) = record { path = step _ _ (calls l.world e) }
      written l (refusal m, e) = record { path = step _ _ (calls l.world e) }

  take-Goes : (uuid : ℕ) → Walks Goes (Login.take_target cfg wire uuid)
  take-Goes uuid = record { at = λ l. record { path = step _ _ (takes l.world uuid) } }

  handshake-Goes : (p : RawPacket) → Walks Goes (Login.in_handshake cfg wire p)
  unfolding Login.in_handshake
  handshake-Goes p = search (walks_rules, Goes-Preorder, own-Goes) depth 8

  status-Goes : (p : RawPacket) → Walks Goes (Login.in_status cfg wire p)
  unfolding Login.in_status
  status-Goes p = search (walks_rules, Goes-Preorder, send-Goes) depth 8

  hello-Goes : (hello : Text × ℕ) → Walks Goes (Login.on_hello cfg wire hello)
  unfolding Login.on_hello
  hello-Goes (name, uuid) =
      Walks-bind Goes-Preorder
        (modify (λ (l : Login E). record l { username = some name; player_uuid = some uuid }))
        (λ u. Login.send cfg wire (login_finished uuid name) >> pure goes_on)
        (own-Goes _ (λ l. refl)) λ u. search (walks_rules, Goes-Preorder, send-Goes) depth 6

  choose-Goes : Walks Goes (Login.choose_backend cfg wire)
  choose-Goes = search (walks_rules, Goes-Preorder, take-Goes) depth 16

  acknowledged-Goes : Walks Goes (Login.on_acknowledged cfg wire)
  unfolding Login.on_acknowledged
  acknowledged-Goes =
      Walks-bind Goes-Preorder (modify (λ (l : Login E). record l { protocol = config }))
        (λ u. Login.choose_backend cfg wire) (own-Goes _ (λ l. refl)) λ u. choose-Goes

  login-Goes : (p : RawPacket) → Walks Goes (Login.in_login cfg wire p)
  unfolding Login.in_login
  login-Goes p = search (walks_rules, Goes-Preorder, hello-Goes, acknowledged-Goes) depth 8

  packet-Goes :
      (protocol : ConnectionProtocol) (p : RawPacket)
      → Walks Goes (Login.on_packet cfg wire protocol p)
  unfolding Login.on_packet
  packet-Goes handshake p = handshake-Goes p
  packet-Goes status p = status-Goes p
  packet-Goes login p = login-Goes p
  packet-Goes config p = Walks-pure Goes-Preorder returns
  packet-Goes play p = Walks-pure Goes-Preorder returns

  -- What the other tasks do during the login is a path of steps.
  abbrev pub AreSteps : List (LoginEvent cfg wire) → Type 0
  AreSteps [] = Unit
  AreSteps (packet r ∷ events) = AreSteps events
  AreSteps (others f ∷ events) = ((w : World E) → Reaches w (f w)) × AreSteps events

  after_packet-Goes :
      (r : Result Next) (l : Login E) (rest : Login E → Option (Result Next) × Login E)
      → Goes l (rest l).1
      → Goes l (Login.after_packet cfg wire r l rest).1
  after_packet-Goes (ok goes_on) l rest h = h
  after_packet-Goes (ok returns) l rest h = record { path = arrived l.world }
  after_packet-Goes (ok (connects t)) l rest h = record { path = arrived l.world }
  after_packet-Goes (err e) l rest h = record { path = arrived l.world }
  after_packet-Goes panic l rest h = record { path = arrived l.world }

  pub login_loop-Goes :
      (events : List (LoginEvent cfg wire)) (l : Login E)
      → AreSteps events
      → Goes l (Login.login_loop cfg wire events l).1
  unfolding Login.login_loop
  login_loop-Goes [] l h = record { path = arrived l.world }
  login_loop-Goes (packet (answer p) ∷ events) l h =
      Goes-Preorder.joins l _ _ ((packet-Goes l.protocol p).at l)
        (after_packet-Goes _ _ (Login.login_loop cfg wire events) (login_loop-Goes events _ h))
  login_loop-Goes (packet (refusal e) ∷ events) l h = record { path = arrived l.world }
  login_loop-Goes (others f ∷ events) l h =
      Goes-Preorder.joins l (record l { world = f l.world }) _ (record { path = h.0 l.world })
        (login_loop-Goes events _ h.1)
