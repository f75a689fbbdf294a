-- ===== src/Common/Map.antt =====
-- Rust's `HashMap` as an association list. The order of the entries stands for the unspecified
-- order of iteration; no theorem depends on it.
use mathlib.Core.Path.{◌≡◌, refl}
use mathlib.Core.Bool.{Bool, true, false}
use mathlib.Core.Option.{Option, none, some}
use mathlib.Core.List.{List, [], ◌∷◌}
use native.Mathlib.Omega.{arith}
use mathlib.Core.Logic.{inl, inr}
use steel_proxy.Common.Tests.{Eq, ◌==◌, if◌then◌else◌, eq_self, is_some, Bool-cases}
use steel_proxy.Common.Lists.{All}

abbrev pub HashMap {ℓ κ} : Type ℓ → Type κ → Type (ℓ ⊔ κ)
HashMap K V = List (K × V)

module _ {ℓ κ} {K : Type ℓ} {V : Type κ} ⦃e : Eq K⦄ where
  -- m.get(k)
  unfoldable pub lookup : K → HashMap K V → Option V
  lookup k [] = none
  lookup k ((key, v) ∷ rest) = if key == k then some v else lookup k rest

  -- m.contains_key(k)
  unfoldable pub contains_key : K → HashMap K V → Bool
  contains_key k [] = false
  contains_key k ((j, v) ∷ m) = if j == k then true else contains_key k m

  -- m.insert(k, v)
  unfoldable pub insert : K → V → HashMap K V → HashMap K V
  insert k v [] = (k, v) ∷ []
  insert k v ((key, old) ∷ rest) = if key == k then (k, v) ∷ rest else (key, old) ∷ insert k v rest

  -- m.remove(k)
  unfoldable pub remove : K → HashMap K V → HashMap K V
  remove k [] = []
  remove k ((j, v) ∷ m) = let rest = remove k m in if j == k then rest else (j, v) ∷ rest

  -- m.is_empty()
  unfoldable pub is_empty : HashMap K V → Bool
  is_empty [] = true
  is_empty (x ∷ m) = false

  pub lookup-insert :
      (k j : K) (v : V) (m : HashMap K V)
      → lookup j (insert k v m) ≡ (if k == j then some v else lookup j m)
  unfolding lookup insert
  lookup-insert k j v [] = refl
  lookup-insert k j v ((key, old) ∷ rest) =
      ground (arith, lookup-insert k j v rest, e.beq_iff k j, e.beq_iff key k, e.beq_iff key j)

  pub lookup-remove :
      (k j : K) (m : HashMap K V) → lookup j (remove k m) ≡ (if k == j then none else lookup j m)
  unfolding lookup remove
  lookup-remove k j [] = ground arith
  lookup-remove k j ((i, w) ∷ m) =
      ground (arith, e.beq_iff k j, e.beq_iff i k, e.beq_iff i j, lookup-remove k j m)

  pub contains_key-lookup : (k : K) (m : HashMap K V) → contains_key k m ≡ is_some (lookup k m)
  unfolding contains_key lookup
  contains_key-lookup k [] = refl
  contains_key-lookup k ((j, v) ∷ m) = ground (arith, contains_key-lookup k m)

pub ruleset map_laws = (lookup-insert, lookup-remove, eq_self)

module _ {ℓ κ} {K : Type ℓ} {V : Type κ} ⦃e : Eq K⦄ where
  -- A `HashMap` holds a key once.
  abbrev pub UniqueKeys : HashMap K V → Type 0
  UniqueKeys [] = Unit
  UniqueKeys ((k, v) ∷ m) = (contains_key k m ≡ false) × UniqueKeys m

  contains_key-insert :
      (k j : K) (v : V) (m : HashMap K V)
      → contains_key j (insert k v m) ≡ (if k == j then true else contains_key j m)
  unfolding contains_key insert
  contains_key-insert k j v [] = refl
  contains_key-insert k j v ((i, w) ∷ m) =
      ground (arith, e.beq_iff k j, e.beq_iff i k, e.beq_iff i j, contains_key-insert k j v m)

  contains_key-remove :
      (k j : K) (m : HashMap K V)
      → contains_key j (remove k m) ≡ (if k == j then false else contains_key j m)
  unfolding contains_key remove
  contains_key-remove k j [] = ground arith
  contains_key-remove k j ((i, w) ∷ m) =
      ground (arith, e.beq_iff k j, e.beq_iff i k, e.beq_iff i j, contains_key-remove k j m)

  pub insert-UniqueKeys :
      (k : K) (v : V) (m : HashMap K V) → UniqueKeys m → UniqueKeys (insert k v m)
  unfolding insert contains_key
  insert-UniqueKeys k v [] u = (refl, tt)
  insert-UniqueKeys k v ((j, w) ∷ m) u = elim (Bool-cases (j == k)) [
    | inl same ↦ rw (same, ← (e.beq_iff j k).0 same) u
    | inr apart ↦
        rw (apart, contains_key-insert)
          (ground (arith, e.beq_iff k j, e.beq_iff j k, u.0), insert-UniqueKeys k v m u.1)
  ]

  absent-remove :
      (k j : K) (m : HashMap K V) → contains_key j m ≡ false → contains_key j (remove k m) ≡ false
  absent-remove k j m h = ground (arith, contains_key-remove k j m)

  pub remove-UniqueKeys : (k : K) (m : HashMap K V) → UniqueKeys m → UniqueKeys (remove k m)
  unfolding remove
  remove-UniqueKeys k [] u = tt
  remove-UniqueKeys k ((j, w) ∷ m) u = elim (Bool-cases (j == k)) [
    | inl same ↦ rw same (remove-UniqueKeys k m u.1)
    | inr apart ↦ rw apart (absent-remove k j m u.0, remove-UniqueKeys k m u.1)
  ]

  -- Each entry of a map with unique keys is what a lookup of its key finds.
  pub All-lookup : (m : HashMap K V) → UniqueKeys m → All (λ (x : K × V). lookup x.0 m ≡ some x.1) m
  unfolding lookup contains_key
  All-lookup [] u = tt
  All-lookup ((k, v) ∷ m) u = (rw eq_self refl, behind m (All-lookup m u.1) u.0)
    where
      behind :
          (rest : HashMap K V)
          → All (λ (x : K × V). lookup x.0 m ≡ some x.1) rest
          → contains_key k rest ≡ false
          → All (λ (x : K × V). lookup x.0 ((k, v) ∷ m) ≡ some x.1) rest
      behind [] h absent = tt
      behind ((j, w) ∷ rest) h absent =
          (ground (arith, e.beq_iff k j, e.beq_iff j k, h.0), behind rest h.1 (ground arith))
