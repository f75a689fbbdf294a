-- ===== src/Db/Rows.antt =====
-- The rows of `pr_builds` before and after the statements of src/db/models.rs.
use steel_proxy.Common.{
  ℕ, nat_eq, nat_beq, nat_beq_iff, Text, text_eq, ◌≡◌, refl, Bool, true, false, Bool-cases, inl,
  inr, arith, List, [], ◌∷◌, Option, none, some, if◌then◌else◌, ◌&&◌, not, ◌==◌, codes, eq_self,
  map,
}
use steel_proxy.Db.Table

-- Whether a row has this number.
abbrev pub has_pr : ℕ → List Table.PrBuild → Bool
has_pr n [] = false
has_pr n (b ∷ rows) = if nat_beq b.pr_number n then true else has_pr n rows

-- UNIQUE(pr_number)
abbrev pub UniqueRows : List Table.PrBuild → Type 0
UniqueRows [] = Unit
UniqueRows (b ∷ rows) = (has_pr b.pr_number rows ≡ false) × UniqueRows rows

has_pr-upsert :
    (now : Text) (id n m : ℕ) (v : Table.Values) (rows : List Table.PrBuild)
    → has_pr m (Table.upsert_rows now id n v rows) ≡ (if nat_beq n m then true else has_pr m rows)
unfolding Table.upsert_rows
has_pr-upsert now id n m v [] = refl
has_pr-upsert now id n m v (b ∷ rows) = ground (
  arith,
  has_pr-upsert now id n m v rows,
  nat_beq_iff b.pr_number n,
  nat_beq_iff b.pr_number m,
  nat_beq_iff n m,
)

upsert_rows-UniqueRows :
    (now : Text) (id n : ℕ) (v : Table.Values) (rows : List Table.PrBuild)
    → UniqueRows rows
    → UniqueRows (Table.upsert_rows now id n v rows)
unfolding Table.upsert_rows
upsert_rows-UniqueRows now id n v [] u = (refl, tt)
upsert_rows-UniqueRows now id n v (b ∷ rows) u = elim (Bool-cases (nat_beq b.pr_number n)) [
  | inl same ↦ rw same u
  | inr apart ↦ rw apart (
    ground (
      arith,
      has_pr-upsert now id n b.pr_number v rows,
      nat_beq_iff n b.pr_number,
      nat_beq_iff b.pr_number n,
      u.0,
    ),
    upsert_rows-UniqueRows now id n v rows u.1,
  )
]

has_pr-select :
    (test : Table.PrBuild → Bool) (m : ℕ) (rows : List Table.PrBuild)
    → has_pr m rows ≡ false
    → has_pr m (Table.select test rows) ≡ false
unfolding Table.select
has_pr-select test m [] h = refl
has_pr-select test m (b ∷ rows) h = ground (arith, has_pr-select test m rows)

select-UniqueRows :
    (test : Table.PrBuild → Bool) (rows : List Table.PrBuild)
    → UniqueRows rows
    → UniqueRows (Table.select test rows)
unfolding Table.select
select-UniqueRows test [] u = tt
select-UniqueRows test (b ∷ rows) u = elim (Bool-cases (test b)) [
  | inl kept ↦ rw kept (has_pr-select test b.pr_number rows u.0, select-UniqueRows test rows u.1)
  | inr dropped ↦ rw dropped (select-UniqueRows test rows u.1)
]

find_pr-upsert :
    (now : Text) (id n m : ℕ) (v : Table.Values) (rows : List Table.PrBuild)
    → nat_beq n m ≡ false
    → Table.find_pr m (Table.upsert_rows now id n v rows) ≡ Table.find_pr m rows
unfolding Table.upsert_rows Table.find_pr
find_pr-upsert now id n m v [] apart = ground arith
find_pr-upsert now id n m v (b ∷ rows) apart = ground (
  arith,
  find_pr-upsert now id n m v rows,
  nat_beq_iff b.pr_number n,
  nat_beq_iff b.pr_number m,
  nat_beq_iff n m,
)

-- The rows of a PR that is not there count for nothing.
pub count-absent :
    (n : ℕ) (short : Text) (rows : List Table.PrBuild)
    → has_pr n rows ≡ false
    → Table.count_commit n short rows ≡ 0
unfolding Table.count_commit
count-absent n short [] h = refl
count-absent n short (b ∷ rows) h = ground (arith, count-absent n short rows)

count-upsert :
    (now : Text) (id n : ℕ) (v : Table.Values) (short : Text) (rows : List Table.PrBuild)
    → UniqueRows rows
    → Table.count_commit n short (Table.upsert_rows now id n v rows)
      ≡ (if v.commit_hash_short == short && v.state == codes "Ready" then 1 else 0)
unfolding Table.upsert_rows Table.count_commit
count-upsert now id n v short [] u = ground (arith, nat_beq_iff n n)
count-upsert now id n v short (b ∷ rows) u = elim (Bool-cases (nat_beq b.pr_number n)) [
  | inl same ↦ rw same (ground (arith, count-absent n short rows, nat_beq_iff b.pr_number n, u.0))
  | inr apart ↦ rw apart (ground (arith, count-upsert now id n v short rows u.1))
]

-- In a table with one row for each PR, after an upsert, the query for a commit of the same PR says
-- whether it is the commit that was written, in the state `Ready`.
pub exists_with_commit-upsert :
    (now : Text) (id n : ℕ) (v : Table.Values) (short : Text) (t : Table.Table)
    → UniqueRows t.rows
    → Table.exists_with_commit n short (Table.upsert now id n v t)
      ≡ (v.commit_hash_short == short && v.state == codes "Ready")
unfolding Table.exists_with_commit Table.upsert
exists_with_commit-upsert now id n v short t u =
    ground (arith, count-upsert now id n v short t.rows u)

abbrev pub written : Text → ℕ → ℕ → Table.Values → Option Table.PrBuild → Table.PrBuild
written now id n v none = Table.inserted now id n v
written now id n v (some b) = Table.overwritten now v b

find_pr-written :
    (now : Text) (id n : ℕ) (v : Table.Values) (rows : List Table.PrBuild)
    → Table.find_pr n (Table.upsert_rows now id n v rows)
      ≡ some (written now id n v (Table.find_pr n rows))
unfolding Table.upsert_rows Table.find_pr
find_pr-written now id n v [] = rw eq_self refl
find_pr-written now id n v (b ∷ rows) = elim (Bool-cases (nat_beq b.pr_number n)) [
  | inl same ↦ rw (same, same) refl
  | inr apart ↦ rw (apart, apart) (find_pr-written now id n v rows)
]

-- An upsert writes the row of its PR: a new one with the given id and time, or the old one with
-- its id and time of creation kept. The rows of the other PRs are found as before.
pub get_by_pr-upsert :
    (now : Text) (id n m : ℕ) (v : Table.Values) (t : Table.Table)
    → Table.get_by_pr m (Table.upsert now id n v t)
      ≡ (if n == m then some (written now id n v (Table.get_by_pr n t)) else Table.get_by_pr m t)
unfolding Table.get_by_pr Table.upsert
get_by_pr-upsert now id n m v t = elim (Bool-cases (nat_beq n m)) [
  | inl same ↦ rw (same, ← (nat_beq_iff n m).0 same) (find_pr-written now id n v t.rows)
  | inr apart ↦ rw apart (find_pr-upsert now id n m v t.rows apart)
]

abbrev set_state : Text → ℕ → Text → Option Text → Table.PrBuild → Table.PrBuild
set_state now n state extra b = if b.pr_number == n then Table.with_state now state extra b else b

has_pr-map :
    (now : Text) (n m : ℕ) (state : Text) (extra : Option Text) (rows : List Table.PrBuild)
    → has_pr m (map (set_state now n state extra) rows) ≡ has_pr m rows
has_pr-map now n m state extra [] = refl
has_pr-map now n m state extra (b ∷ rows) = elim (Bool-cases (nat_beq b.pr_number n)) [
  | inl same ↦ rw (same, has_pr-map now n m state extra rows) refl
  | inr apart ↦ rw (apart, has_pr-map now n m state extra rows) refl
]

map-UniqueRows :
    (now : Text) (n : ℕ) (state : Text) (extra : Option Text) (rows : List Table.PrBuild)
    → UniqueRows rows
    → UniqueRows (map (set_state now n state extra) rows)
map-UniqueRows now n state extra [] u = tt
map-UniqueRows now n state extra (b ∷ rows) u = elim (Bool-cases (nat_beq b.pr_number n)) [
  | inl same ↦
      rw (same, has_pr-map now n b.pr_number state extra rows)
        (u.0, map-UniqueRows now n state extra rows u.1)
  | inr apart ↦
      rw (apart, has_pr-map now n b.pr_number state extra rows)
        (u.0, map-UniqueRows now n state extra rows u.1)
]

pub upsert-UniqueRows :
    (now : Text) (id n : ℕ) (v : Table.Values) (t : Table.Table)
    → UniqueRows t.rows
    → UniqueRows (Table.upsert now id n v t).rows
unfolding Table.upsert
upsert-UniqueRows now id n v t u = upsert_rows-UniqueRows now id n v t.rows u

pub delete-UniqueRows :
    (n : ℕ) (t : Table.Table) → UniqueRows t.rows → UniqueRows (Table.delete n t).rows
unfolding Table.delete
delete-UniqueRows n t u = select-UniqueRows _ t.rows u

-- The statements that write the table, `upsert`, `update_state` and `delete`, keep one row for
-- each PR.
pub statements-UniqueRows :
    (now : Text) (id n : ℕ) (v : Table.Values) (state : Text) (extra : Option Text)
    → (t : Table.Table) → UniqueRows t.rows
    → UniqueRows (Table.upsert now id n v t).rows
      × UniqueRows (Table.update_state now n state extra t).rows
      × UniqueRows (Table.delete n t).rows
unfolding Table.upsert Table.update_state Table.delete
statements-UniqueRows now id n v state extra t u = (
  upsert_rows-UniqueRows now id n v t.rows u,
  map-UniqueRows now n state extra t.rows u,
  select-UniqueRows _ t.rows u,
)

find_pr-select :
    (n : ℕ) (rows : List Table.PrBuild)
    → Table.find_pr n (Table.select (λ b. not (b.pr_number == n)) rows) ≡ none
unfolding Table.select Table.find_pr
find_pr-select n [] = refl
find_pr-select n (b ∷ rows) = ground (arith, find_pr-select n rows)

find_pr-select_other :
    (n m : ℕ) (rows : List Table.PrBuild)
    → nat_beq n m ≡ false
    → Table.find_pr m (Table.select (λ b. not (b.pr_number == n)) rows) ≡ Table.find_pr m rows
unfolding Table.select Table.find_pr
find_pr-select_other n m [] apart = refl
find_pr-select_other n m (b ∷ rows) apart = ground (
  arith,
  find_pr-select_other n m rows,
  nat_beq_iff b.pr_number n,
  nat_beq_iff b.pr_number m,
  nat_beq_iff n m,
)

-- A deletion forgets its PR and no other.
pub get_by_pr-delete :
    (n m : ℕ) (t : Table.Table)
    → Table.get_by_pr m (Table.delete n t) ≡ (if n == m then none else Table.get_by_pr m t)
unfolding Table.get_by_pr Table.delete
get_by_pr-delete n m t = elim (Bool-cases (nat_beq n m)) [
  | inl same ↦ rw (same, ← (nat_beq_iff n m).0 same) (find_pr-select n t.rows)
  | inr apart ↦ rw apart (find_pr-select_other n m t.rows apart)
]
