-- ===== src/Proxy/Named.antt =====
-- A client of src/proxy/client_handler.rs that has said who it is.
use steel_proxy.Common.{
  ℕ, Text, ◌≡◌, ◌≢◌, refl, Bool, true, false, Option, none, some, List, [], ◌∷◌, Result, ok, err,
  panic, if◌then◌else◌, is_some,
}
use steel_proxy.Common.Exec.{Exec, pure, lift, modify, gets, then_run, ◌>>=◌}
use steel_proxy.Config.Types.{ProxyConfig, BackendServer}
use steel_proxy.External.{Reply, answer, refusal, to_result}
use steel_proxy.Proxy.Backends.{get}
use steel_proxy.Proxy.Wire.{RawPacket, ConnectionProtocol, handshake, status, login, config, play}
use steel_proxy.Proxy.Login
use steel_proxy.Proxy.Login.{
  Login, LoginWire, LoginEvent, packet, others, Next, goes_on, returns, connects,
}

pub record IsNamed {E : Type 0} (s : Login E) : Type 0 where
  pub has_uuid : is_some s.player_uuid ≡ true
  pub has_name : is_some s.username ≡ true

-- From a client with a name the action ends in one, and does not panic.
record Safe {ℓ} {E : Type 0} {A : Type ℓ} (m : Exec (Login E) A) : Type ℓ where
  named : (s : Login E) → IsNamed s → IsNamed (m s).1
  calm : (s : Login E) → IsNamed s → (m s).0 ≢ panic

module _ {ℓ} {E : Type 0} {A : Type ℓ} where
  Safe-pure : (a : A) → Safe {E = E} (pure a)
  Safe-pure a = record { named = λ s h. h; calm = λ s h e. cc }

  Safe-reply : (r : Reply A) → Safe {E = E} (lift (to_result r))
  Safe-reply r = record { named = λ s h. h; calm = λ s h. settled r }
    where
      settled : (q : Reply A) → to_result q ≢ panic
      settled (answer a) e = cc
      settled (refusal m) e = cc

  Safe-gets : (f : Login E → A) → Safe (gets f)
  Safe-gets f = record { named = λ s h. h; calm = λ s h e. cc }

  Safe-if : (b : Bool) (m n : Exec (Login E) A) → Safe m → Safe n → Safe (if b then m else n)
  Safe-if true m n hm hn = hm
  Safe-if false m n hm hn = hn

module _ {ℓ κ} {E : Type 0} {A : Type ℓ} {B : Type κ} where
  then_run-IsNamed :
      (f : A → Exec (Login E) B) (r : Result A) (s : Login E)
      → ((a : A) → Safe (f a))
      → IsNamed s
      → IsNamed (then_run f r s).1
  then_run-IsNamed f (ok a) s hf h = (hf a).named s h
  then_run-IsNamed f (err e) s hf h = h
  then_run-IsNamed f panic s hf h = h

  then_run-calm :
      (f : A → Exec (Login E) B) (r : Result A) (s : Login E)
      → ((a : A) → Safe (f a))
      → IsNamed s
      → r ≢ panic
      → (then_run f r s).0 ≢ panic
  then_run-calm f (ok a) s hf h ne e = (hf a).calm s h e
  then_run-calm f (err m) s hf h ne e = cc
  then_run-calm f panic s hf h ne e = ne refl

  Safe-bind :
      (m : Exec (Login E) A) (f : A → Exec (Login E) B)
      → Safe m
      → ((a : A) → Safe (f a))
      → Safe (m >>= f)
  Safe-bind m f hm hf = record {
    named = λ s h. then_run-IsNamed f (m s).0 (m s).1 hf (hm.named s h);
    calm = λ s h. then_run-calm f (m s).0 (m s).1 hf (hm.named s h) (hm.calm s h);
  }

  -- `unwrap` of a part that a client with a name has.
  Safe-unwrap :
      (part : Login E → Option A) (f : A → Exec (Login E) B)
      → ((s : Login E) → IsNamed s → is_some (part s) ≡ true)
      → ((a : A) → Safe (f a))
      → Safe (gets part >>= λ o. lift (Login.unwrap o) >>= f)
  Safe-unwrap part f there hf = record {
    named = λ s h. named_by (part s) s (there s h) h;
    calm = λ s h. calm_by (part s) s (there s h) h;
  }
    where
      named_by :
          (o : Option A) (s : Login E)
          → is_some o ≡ true
          → IsNamed s
          → IsNamed ((lift (Login.unwrap o) >>= f) s).1
      named_by none s some_there h = absurd cc
      named_by (some a) s some_there h = (hf a).named s h

      calm_by :
          (o : Option A) (s : Login E)
          → is_some o ≡ true
          → IsNamed s
          → ((lift (Login.unwrap o) >>= f) s).0 ≢ panic
      calm_by none s some_there h = absurd cc
      calm_by (some a) s some_there h = (hf a).calm s h

ruleset safe_rules = (Safe-pure, Safe-reply, Safe-if, Safe-bind)

module _ {E : Type 0} (cfg : ProxyConfig) (wire : LoginWire E) where
  Safe-protocol : (c : ConnectionProtocol) → Safe {E = E} (modify (λ s. record s { protocol = c }))
  Safe-protocol c = record {
    named = λ s h. record { has_uuid = h.has_uuid; has_name = h.has_name };
    calm = λ s h e. cc;
  }

  Safe-hello :
      (name : Text) (uuid : ℕ)
      → Safe {E = E} (modify (λ s. record s { username = some name; player_uuid = some uuid }))
  Safe-hello name uuid = record {
    named = λ s h. record { has_uuid = refl; has_name = refl };
    calm = λ s h e. cc;
  }

  Safe-written :
      (g : Login.Greeting) (frame : wire.Frame)
      → Safe (λ s. Login.written cfg wire g (wire.write_client frame s.world.ext) s)
  Safe-written g frame = record {
    named = λ s h. named_by (wire.write_client frame s.world.ext) s h;
    calm = λ s h. calm_by (wire.write_client frame s.world.ext) s;
  }
    where
      named_by :
          (r : Reply (Unit {0}) × E) (s : Login E)
          → IsNamed s
          → IsNamed (Login.written cfg wire g r s).1
      named_by (answer u, e) s h = record { has_uuid = h.has_uuid; has_name = h.has_name }
      named_by (refusal m, e) s h = record { has_uuid = h.has_uuid; has_name = h.has_name }

      calm_by : (r : Reply (Unit {0}) × E) (s : Login E) → (Login.written cfg wire g r s).0 ≢ panic
      calm_by (answer u, e) s p = cc
      calm_by (refusal m, e) s p = cc

  Safe-send : (g : Login.Greeting) → Safe (Login.send cfg wire g)
  unfolding Login.send
  Safe-send g = Safe-bind _ _ (Safe-reply _) (Safe-written g)

  Safe-target : (uuid : ℕ) → Safe (Login.take_target cfg wire uuid)
  unfolding steel_proxy.Proxy.Server.get_target_server
  Safe-target uuid = record {
    named = λ s h. record { has_uuid = h.has_uuid; has_name = h.has_name };
    calm = λ s h e. cc;
  }

  Safe-found : (o : Option BackendServer) → Safe {E = E} (lift (Login.found_backend o))
  Safe-found none = record { named = λ s h. h; calm = λ s h e. cc }
  Safe-found (some b) = record { named = λ s h. h; calm = λ s h e. cc }

  Safe-acknowledged : Safe (Login.on_acknowledged cfg wire)
  unfolding Login.on_acknowledged
  Safe-acknowledged = Safe-bind _ _ (Safe-protocol config) λ _.
      Safe-unwrap (λ s. s.player_uuid) _ (λ s h. h.has_uuid)
        λ uuid. Safe-bind _ _ (Safe-target uuid) λ target.
          Safe-bind _ _
            (Safe-gets (λ s. get s.world.backends (Login.unwrap_or target cfg.default_server)))
            λ maybe_backend. Safe-bind _ _ (Safe-found maybe_backend) λ backend.
              Safe-unwrap (λ s. s.username) _ (λ s h. h.has_name)
                λ username. Safe-pure (
                  connects (record {
                    backend_name = Login.unwrap_or target cfg.default_server;
                    address = backend.address;
                    port = backend.port;
                    username = username;
                    uuid = uuid;
                  }))

  Safe-on_hello : (hello : Text × ℕ) → Safe (Login.on_hello cfg wire hello)
  unfolding Login.on_hello
  Safe-on_hello (name, uuid) = search (safe_rules, Safe-hello, Safe-send) depth 8

  Safe-on_packet : (c : ConnectionProtocol) (p : RawPacket) → Safe (Login.on_packet cfg wire c p)
  unfolding Login.on_packet Login.in_handshake Login.in_status Login.in_login
  Safe-on_packet handshake p = search (safe_rules, Safe-protocol) depth 10
  Safe-on_packet status p = search (safe_rules, Safe-send) depth 12
  Safe-on_packet login p = search (safe_rules, Safe-on_hello, Safe-acknowledged) depth 10
  Safe-on_packet config p = Safe-pure returns
  Safe-on_packet play p = Safe-pure returns

  after_packet-calm :
      (r : Result Next) (s : Login E) (rest : Login E → Option (Result Next) × Login E)
      → r ≢ panic
      → IsNamed s
      → ((t : Login E) → IsNamed t → (rest t).0 ≢ some panic)
      → (Login.after_packet cfg wire r s rest).0 ≢ some panic
  after_packet-calm (ok goes_on) s rest ne h k e = k s h e
  after_packet-calm (ok returns) s rest ne h k e = cc
  after_packet-calm (ok (connects t)) s rest ne h k e = cc
  after_packet-calm (err m) s rest ne h k e = cc
  after_packet-calm panic s rest ne h k e = ne refl

  -- Once a client has said who it is, no packet makes the loop of its login panic, whatever it sends,
  -- in any order.
  pub login_loop-calm :
      (events : List (LoginEvent cfg wire)) (s : Login E)
      → IsNamed s
      → (Login.login_loop cfg wire events s).0 ≢ some panic
  unfolding Login.login_loop
  login_loop-calm [] s h e = cc
  login_loop-calm (packet (answer p) ∷ events) s h e =
      after_packet-calm (Login.on_packet cfg wire s.protocol p s).0
        (Login.on_packet cfg wire s.protocol p s).1 (Login.login_loop cfg wire events)
        ((Safe-on_packet s.protocol p).calm s h) ((Safe-on_packet s.protocol p).named s h)
        (λ t ht. login_loop-calm events t ht) e
  login_loop-calm (packet (refusal m) ∷ events) s h e = cc
  login_loop-calm (others f ∷ events) s h e =
      login_loop-calm events (record s { world = f s.world })
        (record { has_uuid = h.has_uuid; has_name = h.has_name }) e
