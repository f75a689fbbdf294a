-- ===== src/World/Quiet.antt =====
-- Actions that change nothing but the world outside and do not panic: one rule for each way to
-- build an action.
use steel_proxy.Common.{
  ◌≡◌, refl, Bool, true, false, Text, Result, ok, err, panic, context, ◌⊎◌, inl, inr, if◌then◌else◌,
}
use steel_proxy.Common.Exec.{Exec, pure, lift, ◌>>=◌}
use steel_proxy.External.{Reply, answer, refusal, to_result}
use steel_proxy.World.{World, outside, outside_fallible, outside_context}

-- Results that a handler of the source can match on.
pub data IsReturned {ℓ} {A : Type ℓ} : Result A → Type ℓ where
  value : (a : A) → IsReturned (ok a)
  error : (e : Text) → IsReturned (err e)

pub record Quiet {ℓ} {E : Type 0} {A : Type ℓ} (m : Exec (World E) A) : Type ℓ where
  pub returns : (w : World E) → IsReturned (m w).0
  pub outside_only : (w : World E) → (m w).1 ≡ record w { ext = (m w).1.ext }

module _ {ℓ} {A : Type ℓ} where
  to_result-IsReturned : (r : Reply A) → IsReturned (to_result r)
  to_result-IsReturned (answer a) = value a
  to_result-IsReturned (refusal e) = error e

  pub context-IsReturned : (c : Text) (r : Result A) → IsReturned r → IsReturned (context c r)
  context-IsReturned c (ok a) h = h
  context-IsReturned c (err e) h = error c
  context-IsReturned c panic h = elim h as (λ r h'. IsReturned (context c r)) [
    | value a ↦ value a
    | error e ↦ error c
  ]

module _ {ℓ} {E : Type 0} {A : Type ℓ} where
  pub Quiet-pure : (a : A) → Quiet {E = E} (pure a)
  Quiet-pure a = record { returns = λ w. value a; outside_only = λ w. refl }

  pub Quiet-lift : (r : Result A) → IsReturned r → Quiet {E = E} (lift r)
  Quiet-lift r h = record { returns = λ w. h; outside_only = λ w. refl }

  pub Quiet-outside : (call : E → A × E) → Quiet (outside call)
  unfolding outside
  Quiet-outside call = record { returns = λ w. value _; outside_only = λ w. refl }

  pub Quiet-lift_reply : (r : Reply A) → Quiet {E = E} (lift (to_result r))
  Quiet-lift_reply r = Quiet-lift _ (to_result-IsReturned r)

  pub Quiet-outside_fallible : (call : E → Reply A × E) → Quiet (outside_fallible call)
  unfolding outside_fallible
  Quiet-outside_fallible call = record {
    returns = λ w. to_result-IsReturned (call w.ext).0;
    outside_only = λ w. refl;
  }

  pub Quiet-outside_context : (c : Text) (call : E → Reply A × E) → Quiet (outside_context c call)
  unfolding outside_context
  Quiet-outside_context c call = record {
    returns = λ w. context-IsReturned c _ (to_result-IsReturned (call w.ext).0);
    outside_only = λ w. refl;
  }

  pub Quiet-if :
      (b : Bool) (m n : Exec (World E) A) → Quiet m → Quiet n → Quiet (if b then m else n)
  Quiet-if true m n km kn = km
  Quiet-if false m n km kn = kn

  -- A quiet action returns a value or an error, and the rest of the world is as before.
  pub Quiet-cases :
      (m : Exec (World E) A)
      → Quiet m
      → (w : World E)
      → ((a : A) × (e : E) × (m w ≡ (ok a, record w { ext = e })))
        ⊎ ((t : Text) × (e : E) × (m w ≡ (err t, record w { ext = e })))
  Quiet-cases m q w = go (m w).0 (q.returns w) refl
    where
      go :
          (r : Result A)
          → IsReturned r
          → (m w).0 ≡ r
          → ((a : A) × (e : E) × (m w ≡ (ok a, record w { ext = e })))
            ⊎ ((t : Text) × (e : E) × (m w ≡ (err t, record w { ext = e })))
      go (ok a) h p = inl (a, (m w).1.ext, λ i. (p i, q.outside_only w i))
      go panic h p = elim h [ ]
      go (err t) h p = inr (t, (m w).1.ext, λ i. (p i, q.outside_only w i))

module _ {ℓ κ} {E : Type 0} {A : Type ℓ} {B : Type κ} where
  pub Quiet-bind :
      (m : Exec (World E) A) (f : A → Exec (World E) B)
      → Quiet m
      → ((a : A) → Quiet (f a))
      → Quiet (m >>= f)
  Quiet-bind m f km kf = record {
    returns = λ w. elim (Quiet-cases m km w) [
      | inl (a, e, p) ↦ rw p ((kf a).returns (record w { ext = e }))
      | inr (t, e, p) ↦ rw p (error t)
    ];
    outside_only = λ w. elim (Quiet-cases m km w) [
      | inl (a, e, p) ↦ rw p ((kf a).outside_only (record w { ext = e }))
      | inr (t, e, p) ↦ rw p refl
    ];
  }

pub ruleset quiet_rules = (
  Quiet-pure, Quiet-lift, Quiet-outside, Quiet-lift_reply, Quiet-outside_fallible,
  Quiet-outside_context, Quiet-if, Quiet-bind,
)
