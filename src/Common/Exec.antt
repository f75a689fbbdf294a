-- ===== src/Common/Exec.antt =====
-- Code that reads and changes a state and may fail, as state passing.
-- Clauses on `Result` are the `match` and `?` of the source.
use mathlib.Core.Path.{◌≡◌, subst}
use steel_proxy.Common.Results.{Text, Result, ok, err, panic}

abbrev pub Exec {ℓ κ} : Type ℓ → Type κ → Type (ℓ ⊔ κ)
Exec S A = S → Result A × S

module _ {ℓ κ} {S : Type ℓ} {A : Type κ} where
  abbrev pub pure : A → Exec S A
  pure a s = (ok a, s)

  abbrev pub fail : Text → Exec S A
  fail e s = (err e, s)

  abbrev pub unwind : Exec S A
  unwind s = (panic, s)

  abbrev pub lift : Result A → Exec S A
  lift r s = (r, s)

abbrev pub then_run {ℓ κ μ} :
    {S : Type ℓ} {A : Type κ} {B : Type μ} → (A → Exec S B) → Result A → Exec S B
then_run f (ok a) s = f a s
then_run f (err e) s = (err e, s)
then_run f panic s = (panic, s)

-- The `?` operator.
infixl 5 ◌>>=◌ ◌>>◌
abbrev pub ◌>>=◌ {ℓ κ μ} :
    {S : Type ℓ} {A : Type κ} {B : Type μ} → Exec S A → (A → Exec S B) → Exec S B
◌>>=◌ m f s = let (r, s') = m s in then_run f r s'

abbrev pub ◌>>◌ {ℓ μ} : {S : Type ℓ} {B : Type μ} → Exec S (Unit {0}) → Exec S B → Exec S B
m >> k = m >>= λ _. k

abbrev pub catch_run {ℓ κ μ} :
    {S : Type ℓ} {A : Type κ} {B : Type μ}
    → (A → Exec S B)
    → (Text → Exec S B)
    → Result A
    → Exec S B
catch_run f g (ok a) s = f a s
catch_run f g (err e) s = g e s
catch_run f g panic s = (panic, s)

-- `match m.await { Ok(a) => f, Err(e) => g }`
abbrev pub try_catch {ℓ κ μ} :
    {S : Type ℓ} {A : Type κ} {B : Type μ}
    → Exec S A
    → (A → Exec S B)
    → (Text → Exec S B)
    → Exec S B
try_catch m f g s = let (r, s') = m s in catch_run f g r s'

-- Reads and changes of the state.
abbrev pub gets {ℓ κ} : {S : Type ℓ} {A : Type κ} → (S → A) → Exec S A
gets f s = (ok (f s), s)

abbrev pub modify {ℓ} : {S : Type ℓ} → (S → S) → Exec S (Unit {0})
modify f s = (ok tt, f s)

-- Every value that the action returns satisfies `P`.
pub record Yields {ℓ κ μ} {S : Type ℓ} {A : Type κ} (P : A → Type μ) (m : Exec S A)
    : Type (ℓ ⊔ κ ⊔ μ) where
  pub at : (s : S) (a : A) → (m s).0 ≡ ok a → P a

module _ {ℓ κ μ ν} {S : Type ℓ} {A : Type κ} {B : Type μ} {P : B → Type ν} where
  then_run-ok :
      (f : A → Exec S B) (r : Result A) (s : S) (b : B)
      → ((a : A) → Yields P (f a))
      → (then_run f r s).0 ≡ ok b
      → P b
  then_run-ok f (ok a) s b h e = (h a).at s b e
  then_run-ok f (err m) s b h e = cc
  then_run-ok f panic s b h e = cc

  pub Yields-bind :
      (m : Exec S A) (f : A → Exec S B) → ((a : A) → Yields P (f a)) → Yields P (m >>= f)
  Yields-bind m f h = record { at = λ s b e. then_run-ok f (m s).0 (m s).1 b h e }

ok-injective {ℓ} : {A : Type ℓ} (a b : A) → ok a ≡ ok b → a ≡ b
ok-injective a b e = cc

pub Yields-pure {ℓ κ μ} :
    {S : Type ℓ} {A : Type κ} {P : A → Type μ} (a : A) → P a → Yields {S = S} P (pure a)
Yields-pure {P} a h = record { at = λ s b e. subst P (ok-injective a b e) h }
