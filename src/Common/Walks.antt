-- ===== src/Common/Walks.antt =====
-- Actions that move their state along a relation, whatever their result: one rule for each way to
-- build an action. The relation is a preorder.
use mathlib.Core.Bool.{Bool, true, false}
use steel_proxy.Common.Tests.{if◌then◌else◌}
use steel_proxy.Common.Results.{Text, Result, ok, err, panic}
use steel_proxy.Common.Exec.{
  Exec, pure, fail, unwind, lift, gets, then_run, try_catch, catch_run, ◌>>=◌,
}

pub record Preorder {ℓ κ} {T : Type ℓ} (R : T → T → Type κ) : Type (ℓ ⊔ κ) where
  pub stays : (s : T) → R s s
  pub joins : (s t u : T) → R s t → R t u → R s u

pub record Walks {ℓ κ μ} {T : Type ℓ} {A : Type μ} (R : T → T → Type κ) (m : Exec T A)
    : Type (ℓ ⊔ κ) where
  pub at : (s : T) → R s (m s).1

module _ {ℓ κ μ} {T : Type ℓ} {A : Type μ} {R : T → T → Type κ} where
  pub Walks-pure : Preorder R → (a : A) → Walks R (pure a)
  Walks-pure o a = record { at = o.stays }

  pub Walks-fail : Preorder R → (e : Text) → Walks R (fail {A = A} e)
  Walks-fail o e = record { at = o.stays }

  pub Walks-unwind : Preorder R → Walks R (unwind {A = A})
  Walks-unwind o = record { at = o.stays }

  pub Walks-lift : Preorder R → (r : Result A) → Walks R (lift r)
  Walks-lift o r = record { at = o.stays }

  pub Walks-gets : Preorder R → (f : T → A) → Walks R (gets f)
  Walks-gets o f = record { at = o.stays }

  pub Walks-if : (b : Bool) (m n : Exec T A) → Walks R m → Walks R n → Walks R (if b then m else n)
  Walks-if true m n hm hn = hm
  Walks-if false m n hm hn = hn

module _ {ℓ κ μ ν} {T : Type ℓ} {A : Type μ} {B : Type ν} {R : T → T → Type κ} where
  then_run-Walks :
      (f : A → Exec T B) (r : Result A)
      → Preorder R
      → ((a : A) → Walks R (f a))
      → Walks R (then_run f r)
  then_run-Walks f (ok a) o h = h a
  then_run-Walks f (err e) o h = record { at = o.stays }
  then_run-Walks f panic o h = record { at = o.stays }

  pub Walks-bind :
      Preorder R
      → (m : Exec T A) (f : A → Exec T B) → Walks R m
      → ((a : A) → Walks R (f a))
      → Walks R (m >>= f)
  Walks-bind o m f hm hf = record {
    at = λ s.
        o.joins s (m s).1 (then_run f (m s).0 (m s).1).1 (hm.at s)
          ((then_run-Walks f (m s).0 o hf).at (m s).1);
  }

  catch_run-Walks :
      (f : A → Exec T B) (g : Text → Exec T B) (r : Result A)
      → Preorder R
      → ((a : A) → Walks R (f a))
      → ((e : Text) → Walks R (g e))
      → Walks R (catch_run f g r)
  catch_run-Walks f g (ok a) o hf hg = hf a
  catch_run-Walks f g (err e) o hf hg = hg e
  catch_run-Walks f g panic o hf hg = record { at = o.stays }

  pub Walks-try_catch :
      Preorder R
      → (m : Exec T A) (f : A → Exec T B) (g : Text → Exec T B) → Walks R m
      → ((a : A) → Walks R (f a))
      → ((e : Text) → Walks R (g e))
      → Walks R (try_catch m f g)
  Walks-try_catch o m f g hm hf hg = record {
    at = λ s.
        o.joins s (m s).1 (catch_run f g (m s).0 (m s).1).1 (hm.at s)
          ((catch_run-Walks f g (m s).0 o hf hg).at (m s).1);
  }

pub ruleset walks_rules = (
  Walks-pure, Walks-fail, Walks-unwind, Walks-lift, Walks-gets, Walks-if, Walks-bind,
  Walks-try_catch,
)
