-- ===== src/Db/Store.antt =====
-- The table `pr_builds` as a map from PR numbers to builds: what the statements of
-- src/db/models.rs promise, without rows and their order.
use steel_proxy.Common.{
  ℕ, nat_eq, nat_beq, nat_beq_iff, Text, text_eq, ◌≡◌, refl, subst, Bool, true, false, Bool-cases,
  inl, inr, arith, List, [], ◌∷◌, Option, none, some, if◌then◌else◌, ◌&&◌, ◌==◌, codes, map,
}
use steel_proxy.Db.Table
use steel_proxy.Db.Table.{PrBuild, Values}
use steel_proxy.Db.Rows.{
  UniqueRows, has_pr, count-absent, written, get_by_pr-upsert, get_by_pr-delete,
  statements-UniqueRows,
}

abbrev pub Store : Type 0
Store = ℕ → Option PrBuild

abbrev pub view : Table.Table → Store
view t m = Table.get_by_pr m t

abbrev pub put : Text → (id n : ℕ) → Values → Store → Store
put now id n v s m = if n == m then some (written now id n v (s n)) else s m

abbrev updated : Text → Text → Option Text → Option PrBuild → Option PrBuild
updated now state extra none = none
updated now state extra (some b) = some (Table.with_state now state extra b)

abbrev pub alter : Text → ℕ → Text → Option Text → Store → Store
alter now n state extra s m = if n == m then updated now state extra (s m) else s m

abbrev pub forget : ℕ → Store → Store
forget n s m = if n == m then none else s m

-- Whether a build is ready, and for this commit.
abbrev pub is_build : Text → Option PrBuild → Bool
is_build short none = false
is_build short (some b) = b.commit_hash_short == short && b.state == codes "Ready"

abbrev pub ready_commit : Option PrBuild → Option Text
ready_commit none = none
ready_commit (some b) = if b.state == codes "Ready" then some b.commit_hash_short else none

find_pr-update :
    (now : Text) (n m : ℕ) (state : Text) (extra : Option Text) (rows : List PrBuild)
    → Table.find_pr m
        (map (λ b. if b.pr_number == n then Table.with_state now state extra b else b) rows)
      ≡ (if n == m then updated now state extra (Table.find_pr m rows) else Table.find_pr m rows)
unfolding Table.find_pr
find_pr-update now n m state extra [] = ground arith
find_pr-update now n m state extra (b ∷ rows) = elim (Bool-cases (nat_beq b.pr_number n)) [
  | inl same ↦ elim (Bool-cases (nat_beq b.pr_number m)) [
    | inl here ↦ rw (same, here, equal same here) refl
    | inr later ↦
        rw
          (same, later, apart same later, find_pr-update now n m state extra rows, apart same later)
          refl
  ]
  | inr other ↦ elim (Bool-cases (nat_beq b.pr_number m)) [
    | inl here ↦ rw (other, here, different other here) refl
    | inr later ↦ rw (other, later) (find_pr-update now n m state extra rows)
  ]
]
  where
    equal : nat_beq b.pr_number n ≡ true → nat_beq b.pr_number m ≡ true → nat_beq n m ≡ true
    equal p q =
        ground (arith, nat_beq_iff b.pr_number n, nat_beq_iff b.pr_number m, nat_beq_iff n m)

    apart : nat_beq b.pr_number n ≡ true → nat_beq b.pr_number m ≡ false → nat_beq n m ≡ false
    apart p q =
        ground (arith, nat_beq_iff b.pr_number n, nat_beq_iff b.pr_number m, nat_beq_iff n m)

    different : nat_beq b.pr_number n ≡ false → nat_beq b.pr_number m ≡ true → nat_beq n m ≡ false
    different p q =
        ground (arith, nat_beq_iff b.pr_number n, nat_beq_iff b.pr_number m, nat_beq_iff n m)

count-view :
    (n : ℕ) (short : Text) (rows : List PrBuild)
    → UniqueRows rows
    → Table.count_commit n short rows ≡ (if is_build short (Table.find_pr n rows) then 1 else 0)
unfolding Table.count_commit Table.find_pr
count-view n short [] u = refl
count-view n short (b ∷ rows) u = elim (Bool-cases (nat_beq b.pr_number n)) [
  | inl same ↦ rw same (ground (arith, count-absent n short rows, nat_beq_iff b.pr_number n, u.0))
  | inr other ↦ rw other (count-view n short rows u.1)
]

latest-absent :
    (n : ℕ) (rows : List PrBuild) → has_pr n rows ≡ false → Table.latest_ready n rows ≡ none
unfolding Table.latest_ready
latest-absent n [] h = refl
latest-absent n (b ∷ rows) h = elim (Bool-cases (nat_beq b.pr_number n)) [
  | inl same ↦ absurd (ground (arith, h))
  | inr other ↦ rw other (latest-absent n rows (rw other at h))
]

latest-view :
    (n : ℕ) (rows : List PrBuild)
    → UniqueRows rows
    → Table.short_hash (Table.latest_ready n rows) ≡ ready_commit (Table.find_pr n rows)
unfolding Table.latest_ready Table.find_pr
latest-view n [] u = refl
latest-view n (b ∷ rows) u = elim (Bool-cases (nat_beq b.pr_number n)) [
  | inl same ↦ elim (Bool-cases (b.state == codes "Ready")) [
    | inl is_ready ↦ rw (same, is_ready, latest-absent n rows (behind same)) refl
    | inr not_ready ↦ rw (same, not_ready, latest-absent n rows (behind same)) refl
  ]
  | inr other ↦ rw other (latest-view n rows u.1)
]
  where
    behind : nat_beq b.pr_number n ≡ true → has_pr n rows ≡ false
    behind same = subst (λ k. has_pr k rows ≡ false) ((nat_beq_iff b.pr_number n).0 same) u.0

-- A table with one row for each PR is a map from PRs to builds: each statement that writes it does
-- to the map what its name says and nothing else, and keeps one row for each PR; and each query
-- that looks for a ready build, in whatever order the rows stand, reads the one build that the map
-- has for the PR.
pub table-Store :
    (now : Text) (id n : ℕ) (v : Values) (state short : Text) (extra : Option Text)
    (t : Table.Table)
    → UniqueRows t.rows
    → ((m : ℕ) → view (Table.upsert now id n v t) m ≡ put now id n v (view t) m)
      × ((m : ℕ)
          → view (Table.update_state now n state extra t) m ≡ alter now n state extra (view t) m)
      × ((m : ℕ) → view (Table.delete n t) m ≡ forget n (view t) m)
      × (Table.exists_with_commit n short t ≡ is_build short (view t n))
      × (Table.get_last_ready_commit n t ≡ ready_commit (view t n))
      × UniqueRows (Table.upsert now id n v t).rows
      × UniqueRows (Table.update_state now n state extra t).rows
      × UniqueRows (Table.delete n t).rows
unfolding Table.get_by_pr Table.update_state Table.exists_with_commit Table.get_last_ready_commit
table-Store now id n v state short extra t u = (
  λ m. get_by_pr-upsert now id n m v t,
  λ m. find_pr-update now n m state extra t.rows,
  λ m. get_by_pr-delete n m t,
  ground (arith, count-view n short t.rows u),
  latest-view n t.rows u,
  kept.0,
  kept.1,
  kept.2,
)
  where
    kept :
        UniqueRows (Table.upsert now id n v t).rows
        × UniqueRows (Table.update_state now n state extra t).rows
        × UniqueRows (Table.delete n t).rows
    kept = statements-UniqueRows now id n v state extra t u
