-- ===== src/Proxy/Frames.antt =====
-- Parts of a session that an action leaves alone: one rule for each way to build an action
-- (src/proxy/packet_forwarder.rs).
use steel_proxy.Common.{
  Text, ◌≡◌, refl, ◌∙◌, Bool, true, false, Option, Result, ok, err, panic, if◌then◌else◌,
}
use steel_proxy.Common.Exec.{Exec, pure, lift, gets, then_run, try_catch, catch_run, ◌>>=◌}
use steel_proxy.External.{Reply, answer, refusal, to_result}
use steel_proxy.World.{World}
use steel_proxy.Proxy.Wire.{Wire, Packet, ConnectionProtocol}
use steel_proxy.Proxy.Session
use steel_proxy.Proxy.Session.{
  S, send_client, send_backend, sent_to_client, sent_to_backend, in_world,
}

-- `m` leaves `part` as it is, whatever its result.
pub record Leaves {ℓ κ μ} {T : Type ℓ} {B : Type κ} {A : Type μ} (part : T → B) (m : Exec T A)
    : Type (ℓ ⊔ κ) where
  pub at : (s : T) → part (m s).1 ≡ part s

module _ {ℓ κ μ} {T : Type ℓ} {B : Type κ} {A : Type μ} {part : T → B} where
  pub Leaves-pure : (a : A) → Leaves part (pure a)
  Leaves-pure a = record { at = λ s. refl }

  pub Leaves-lift : (r : Result A) → Leaves part (lift r)
  Leaves-lift r = record { at = λ s. refl }

  pub Leaves-gets : (f : T → A) → Leaves part (gets f)
  Leaves-gets f = record { at = λ s. refl }

  pub Leaves-if :
      (b : Bool) (m n : Exec T A) → Leaves part m → Leaves part n → Leaves part (if b then m else n)
  Leaves-if true m n hm hn = hm
  Leaves-if false m n hm hn = hn

module _ {ℓ κ μ ν} {T : Type ℓ} {B : Type κ} {A : Type μ} {C : Type ν} {part : T → B} where
  then_run-Leaves :
      (f : A → Exec T C) (r : Result A) → ((a : A) → Leaves part (f a)) → Leaves part (then_run f r)
  then_run-Leaves f (ok a) h = h a
  then_run-Leaves f (err e) h = record { at = λ s. refl }
  then_run-Leaves f panic h = record { at = λ s. refl }

  pub Leaves-bind :
      (m : Exec T A) (f : A → Exec T C)
      → Leaves part m
      → ((a : A) → Leaves part (f a))
      → Leaves part (m >>= f)
  Leaves-bind m f hm hf = record { at = λ s. (then_run-Leaves f (m s).0 hf).at (m s).1 ∙ hm.at s }

  catch_run-Leaves :
      (f : A → Exec T C) (g : Text → Exec T C) (r : Result A)
      → ((a : A) → Leaves part (f a))
      → ((e : Text) → Leaves part (g e))
      → Leaves part (catch_run f g r)
  catch_run-Leaves f g (ok a) hf hg = hf a
  catch_run-Leaves f g (err e) hf hg = hg e
  catch_run-Leaves f g panic hf hg = record { at = λ s. refl }

  pub Leaves-try_catch :
      (m : Exec T A) (f : A → Exec T C) (g : Text → Exec T C)
      → Leaves part m
      → ((a : A) → Leaves part (f a))
      → ((e : Text) → Leaves part (g e))
      → Leaves part (try_catch m f g)
  Leaves-try_catch m f g hm hf hg = record {
    at = λ s. (catch_run-Leaves f g (m s).0 hf hg).at (m s).1 ∙ hm.at s;
  }

pub ruleset leaves_rules =
    (Leaves-pure, Leaves-lift, Leaves-gets, Leaves-if, Leaves-bind, Leaves-try_catch)

-- A part of the session that neither the shared world nor what was sent to the client belongs to.
pub record IsPrivate {κ} {E : Type 0} (wire : Wire E) {B : Type κ} (part : S wire → B)
    : Type κ where
  pub world_apart : (s : S wire) (w : World E) → part (record s { world = w }) ≡ part s
  pub client_apart :
      (s : S wire) (p : Packet wire.Commands) → part (sent_to_client wire p s) ≡ part s

module _ {κ} {E : Type 0} (wire : Wire E) {B : Type κ} {part : S wire → B}
    (h : IsPrivate wire part) where
  pub Leaves-in_world {ℓ} :
      {A : Type ℓ} (m : Exec (World E) A) → Leaves part (in_world {Commands = wire.Commands} m)
  unfolding in_world
  Leaves-in_world m = record { at = λ s. h.world_apart s (m s.world).1 }

  pub Leaves-send_client :
      (c : Option Text) (p : Packet wire.Commands) → Leaves part (send_client wire c p)
  unfolding send_client
  Leaves-send_client c p =
      Leaves-bind (lift (to_result (wire.encode p)))
        (λ frame s.
          Session.write_result wire c (sent_to_client wire p) (wire.write_client frame s.world.ext)
            s)
        (Leaves-lift _)
        λ frame. record { at = λ s. written s (wire.write_client frame s.world.ext) }
    where
      written :
          (s : S wire) (r : Reply (Unit {0}) × E)
          → part (Session.write_result wire c (sent_to_client wire p) r s).1 ≡ part s
      written s (answer u, e) = h.client_apart _ p ∙ h.world_apart s _
      written s (refusal m, e) = h.world_apart s _

-- A part that what was sent to the backend, the shared world and the protocol do not belong to.
pub record IsInner {κ} {E : Type 0} (wire : Wire E) {B : Type κ} (part : S wire → B) : Type κ where
  pub private_part : IsPrivate wire part
  pub backend_apart :
      (s : S wire) (p : Packet wire.Commands) → part (sent_to_backend wire p s) ≡ part s
  pub protocol_apart :
      (s : S wire) (c : ConnectionProtocol) → part (record s { current_protocol = c }) ≡ part s

module _ {κ} {E : Type 0} (wire : Wire E) {B : Type κ} {part : S wire → B}
    (h : IsInner wire part) where
  pub Leaves-send_backend :
      (c : Option Text) (p : Packet wire.Commands) → Leaves part (send_backend wire c p)
  unfolding send_backend
  Leaves-send_backend c p =
      Leaves-bind (lift (to_result (wire.encode p)))
        (λ frame s.
          Session.write_result wire c (sent_to_backend wire p)
            (wire.write_backend frame s.world.ext) s)
        (Leaves-lift _)
        λ frame. record { at = λ s. written s (wire.write_backend frame s.world.ext) }
    where
      written :
          (s : S wire) (r : Reply (Unit {0}) × E)
          → part (Session.write_result wire c (sent_to_backend wire p) r s).1 ≡ part s
      written s (answer u, e) = h.backend_apart _ p ∙ h.private_part.world_apart s _
      written s (refusal m, e) = h.private_part.world_apart s _
