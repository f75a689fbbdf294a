-- ===== src/Db/Queries.antt =====
-- src/db/models.rs: the methods of `PrBuild`, each one SQL statement.
use steel_proxy.Common.{ℕ, Text, Option, Bool, List}
use steel_proxy.Common.Exec.{Exec, ◌>>=◌}
use steel_proxy.External.{External}
use steel_proxy.World.{World, outside, query}
use steel_proxy.Db.Table.{PrBuild, Table, Values}
use steel_proxy.Db.Table

module _ (X : External) where
  unfoldable pub get_by_pr : ℕ → Exec (World X.E) (Option PrBuild)
  get_by_pr pr_number = query X λ t. (Table.get_by_pr pr_number t, t)

  unfoldable pub exists_with_commit : ℕ → Text → Exec (World X.E) Bool
  exists_with_commit pr_number short = query X λ t. (Table.exists_with_commit pr_number short t, t)

  unfoldable pub upsert : ℕ → Values → Exec (World X.E) (Unit {0})
  upsert pr_number v = do
    now ← outside X.datetime
    id ← outside X.next_rowid
    query X λ t. (tt, Table.upsert now id pr_number v t)

  unfoldable pub update_state : ℕ → Text → Option Text → Exec (World X.E) (Unit {0})
  update_state pr_number state state_data = do
    now ← outside X.datetime
    query X λ t. (tt, Table.update_state now pr_number state state_data t)

  unfoldable pub delete : ℕ → Exec (World X.E) (Unit {0})
  delete pr_number = query X λ t. (tt, Table.delete pr_number t)

  unfoldable pub get_active_builds : Exec (World X.E) (List PrBuild)
  get_active_builds = query X λ t. (Table.get_active_builds t, t)

  unfoldable pub get_last_ready_commit : ℕ → Exec (World X.E) (Option Text)
  get_last_ready_commit pr_number = query X λ t. (Table.get_last_ready_commit pr_number t, t)
