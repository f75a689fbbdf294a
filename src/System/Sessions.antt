-- ===== src/System/Sessions.antt =====
-- The forwarder of src/proxy/packet_forwarder.rs as a path of steps in the shared state.
use steel_proxy.Common.{Text, Option, ◌≡◌}
use steel_proxy.Common.Exec.{Exec, lift, modify}
use steel_proxy.Common.Walks.{
  Preorder, Walks, walks_rules, Walks-bind, Walks-pure, Walks-lift, Walks-try_catch, Walks-unwind,
}
use steel_proxy.External.{Reply, answer, refusal, to_result}
use steel_proxy.World.{World}
use steel_proxy.Proxy.Wire.{Wire, Packet}
use steel_proxy.Proxy.Session.{S, in_world, send_client, send_backend}
use steel_proxy.Proxy.Session
use steel_proxy.System.Steps.{Reaches, Reaches-Preorder, arrived, step, calls}

-- The shared state of a task that holds it in `world`.
pub record Along {E T : Type 0} (world : T → World E) (s t : T) : Type 0 where
  pub path : Reaches (world s) (world t)

pub Along-Preorder : {E T : Type 0} (world : T → World E) → Preorder (Along world)
Along-Preorder world = record {
  stays = λ s. record { path = arrived (world s) };
  joins = λ s t u p q. record {
    path = Reaches-Preorder.joins (world s) (world t) (world u) p.path q.path;
  };
}

module _ {E : Type 0} (wire : Wire E) where
  abbrev pub Travels : S wire → S wire → Type 0
  Travels = Along (λ s. s.world)

  pub Travels-Preorder : Preorder Travels
  Travels-Preorder = Along-Preorder (λ s. s.world)

  pub in_world-Travels {ℓ} :
      {A : Type ℓ} (m : Exec (World E) A)
      → Walks Reaches m
      → Walks Travels (in_world {Commands = wire.Commands} m)
  unfolding in_world
  in_world-Travels m h = record { at = λ s. record { path = h.at s.world } }

  -- A packet to one of the two sides.
  pub send_client-Travels :
      (c : Option Text) (p : Packet wire.Commands) → Walks Travels (send_client wire c p)
  unfolding send_client
  send_client-Travels c p =
      Walks-bind Travels-Preorder (lift (to_result (wire.encode p))) _
        (Walks-lift Travels-Preorder _)
        λ frame. record { at = λ s. written s (wire.write_client frame s.world.ext) }
    where
      written :
          (s : S wire) (r : Reply (Unit {0}) × E)
          → Travels s (Session.write_result wire c (Session.sent_to_client wire p) r s).1
      written s (answer u, e) = record { path = step _ _ (calls s.world e) }
      written s (refusal m, e) = record { path = step _ _ (calls s.world e) }

  pub send_backend-Travels :
      (c : Option Text) (p : Packet wire.Commands) → Walks Travels (send_backend wire c p)
  unfolding send_backend
  send_backend-Travels c p =
      Walks-bind Travels-Preorder (lift (to_result (wire.encode p))) _
        (Walks-lift Travels-Preorder _)
        λ frame. record { at = λ s. written s (wire.write_backend frame s.world.ext) }
    where
      written :
          (s : S wire) (r : Reply (Unit {0}) × E)
          → Travels s (Session.write_result wire c (Session.sent_to_backend wire p) r s).1
      written s (answer u, e) = record { path = step _ _ (calls s.world e) }
      written s (refusal m, e) = record { path = step _ _ (calls s.world e) }

  -- A change of the session's own variables.
  pub own-Travels :
      (f : S wire → S wire) → ((s : S wire) → (f s).world ≡ s.world) → Walks Travels (modify f)
  own-Travels f h = record { at = λ s. record { path = rw h (arrived s.world) } }

pub ruleset travel_rules =
    (walks_rules, Travels-Preorder, in_world-Travels, send_client-Travels, send_backend-Travels)
