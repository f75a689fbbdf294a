-- ===== src/Db/Table.antt =====
-- src/db/models.rs and the schema of src/db/mod.rs: the table `pr_builds`, and each SQL
-- statement of the program as a function on its rows. The argument `now` is what
-- `datetime('now')` returns.
use steel_proxy.Common.{
  ℕ, suc, Bool, true, false, ◌&&◌, ◌||◌, not, Option, none, some, Text, text_eq, nat_eq, codes,
  List, [], ◌∷◌, ltb, ◌==◌, if◌then◌else◌, map,
}

pub record PrBuild : Type 0 where
  pub id : ℕ
  pub pr_number : ℕ  -- i64, and never negative: it is cast from u32
  pub commit_hash : Text
  pub commit_hash_short : Text
  pub image_tag : Text
  pub state : Text
  pub state_data : Option Text
  pub created_at : Text
  pub updated_at : Text

pub record Table : Type 0 where
  pub rows : List PrBuild

-- CREATE TABLE IF NOT EXISTS, given the table that the database has.
unfoldable pub create_table : Option Table → Table
create_table none = record { rows = [] }
create_table (some t) = t

-- WHERE pr_number = ?, first row
unfoldable pub find_pr : ℕ → List PrBuild → Option PrBuild
find_pr n [] = none
find_pr n (b ∷ rows) = if b.pr_number == n then some b else find_pr n rows

unfoldable pub get_by_pr : ℕ → Table → Option PrBuild
unfolding find_pr
get_by_pr n t = find_pr n t.rows

abbrev pub matches_commit : ℕ → Text → PrBuild → Bool
matches_commit n short b =
    b.pr_number == n && (b.commit_hash_short == short && b.state == codes "Ready")

-- SELECT COUNT(*) … WHERE pr_number = ? AND commit_hash_short = ? AND state = 'Ready'
unfoldable pub count_commit : ℕ → Text → List PrBuild → ℕ
count_commit n short [] = 0
count_commit n short (b ∷ rows) =
    let rest = count_commit n short rows in if matches_commit n short b then suc rest else rest

unfoldable pub exists_with_commit : ℕ → Text → Table → Bool
unfolding count_commit
exists_with_commit n short t = ltb 0 (count_commit n short t.rows)

-- What a statement writes into a row.
pub record Values : Type 0 where
  pub commit_hash : Text
  pub commit_hash_short : Text
  pub image_tag : Text
  pub state : Text
  pub state_data : Option Text

abbrev pub inserted : Text → ℕ → ℕ → Values → PrBuild
inserted now id n v = record {
  id = id;
  pr_number = n;
  commit_hash = v.commit_hash;
  commit_hash_short = v.commit_hash_short;
  image_tag = v.image_tag;
  state = v.state;
  state_data = v.state_data;
  created_at = now;
  updated_at = now;
}

-- DO UPDATE SET …
abbrev pub overwritten : Text → Values → PrBuild → PrBuild
overwritten now v b = record b {
  commit_hash = v.commit_hash;
  commit_hash_short = v.commit_hash_short;
  image_tag = v.image_tag;
  state = v.state;
  state_data = v.state_data;
  updated_at = now;
}

-- INSERT … ON CONFLICT(pr_number) DO UPDATE: the row of this number, or a new last row.
unfoldable pub upsert_rows : Text → ℕ → ℕ → Values → List PrBuild → List PrBuild
upsert_rows now id n v [] = inserted now id n v ∷ []
upsert_rows now id n v (b ∷ rows) =
    if b.pr_number == n then overwritten now v b ∷ rows else b ∷ upsert_rows now id n v rows

-- `id` is the number that SQLite chooses for a new row.
unfoldable pub upsert : Text → ℕ → ℕ → Values → Table → Table
unfolding upsert_rows
upsert now id n v t = record { rows = upsert_rows now id n v t.rows }

abbrev pub with_state : Text → Text → Option Text → PrBuild → PrBuild
with_state now state state_data b = record b {
  state = state;
  state_data = state_data;
  updated_at = now;
}

-- UPDATE … SET state, state_data, updated_at WHERE pr_number = ?
unfoldable pub update_state : Text → ℕ → Text → Option Text → Table → Table
update_state now n state state_data t = record t {
  rows = map (λ b. if b.pr_number == n then with_state now state state_data b else b) t.rows;
}

-- The rows that a test keeps.
unfoldable pub select : (PrBuild → Bool) → List PrBuild → List PrBuild
select test [] = []
select test (b ∷ rows) = let rest = select test rows in if test b then b ∷ rest else rest

-- DELETE … WHERE pr_number = ?
unfoldable pub delete : ℕ → Table → Table
unfolding select
delete n t = record t { rows = select (λ b. not (b.pr_number == n)) t.rows }

abbrev pub is_active : PrBuild → Bool
is_active b = not (b.state == codes "Failed" || b.state == codes "ShuttingDown")

-- WHERE state NOT IN ('Failed', 'ShuttingDown')
unfoldable pub get_active_builds : Table → List PrBuild
unfolding select
get_active_builds t = select is_active t.rows

-- SQLite's order on texts, which is that of their code points.
unfoldable pub text_ltb : Text → Text → Bool
text_ltb [] [] = false
text_ltb [] (d ∷ t) = true
text_ltb (c ∷ s) [] = false
text_ltb (c ∷ s) (d ∷ t) = let rest = text_ltb s t in if c == d then rest else ltb c d

abbrev newer : PrBuild → Option PrBuild → Option PrBuild
newer b none = some b
newer b (some c) = if text_ltb b.updated_at c.updated_at then some c else some b

abbrev pub is_ready : ℕ → PrBuild → Bool
is_ready n b = b.pr_number == n && b.state == codes "Ready"

-- WHERE pr_number = ? AND state = 'Ready' ORDER BY updated_at DESC LIMIT 1
unfoldable pub latest_ready : ℕ → List PrBuild → Option PrBuild
unfolding text_ltb
latest_ready n [] = none
latest_ready n (b ∷ rows) =
    let rest = latest_ready n rows in if is_ready n b then newer b rest else rest

abbrev pub short_hash : Option PrBuild → Option Text
short_hash none = none
short_hash (some b) = some b.commit_hash_short

unfoldable pub get_last_ready_commit : ℕ → Table → Option Text
unfolding latest_ready
get_last_ready_commit n t = short_hash (latest_ready n t.rows)
