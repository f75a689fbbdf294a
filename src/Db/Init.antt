-- ===== src/Db/Init.antt =====
-- src/db/mod.rs: opening the database.
use steel_proxy.Common.{
  Option, none, some, Text, text_eq, codes, ◌++◌, [], Result, ok, err, if◌then◌else◌, ◌==◌,
}
use steel_proxy.Common.Exec.{Exec, pure, ◌>>=◌, ◌>>◌}
use steel_proxy.External.{External, Reply, to_result}
use steel_proxy.Db.Table.{Table, create_table}

-- What the opening takes from the standard library and from sqlx besides its statements: the
-- parent of a path, as a text, and the database at a URL, with its table `pr_builds` if there is
-- one.
pub record Storage (E : Type 0) : Type 0 where
  pub parent : Text → Option Text
  pub create_dir_all : Text → E → Reply (Unit {0}) × E
  pub connect : Text → E → Reply (Option Table) × E

-- A call that can fail, under `?`.
unfoldable pub asked {ℓ} : {E : Type 0} {A : Type ℓ} → (E → Reply A × E) → Exec E A
asked call e = let (r, e') = call e in (to_result r, e')

abbrev pub statement_result : Option Text → Result (Unit {0})
statement_result none = ok tt
statement_result (some m) = err m

module _ (X : External) (storage : Storage X.E) where
  unfoldable pub create_parent : Option Text → Exec X.E (Unit {0})
  create_parent none = pure tt
  create_parent (some parent) =
      if parent == [] then pure tt else asked (storage.create_dir_all parent)

  unfoldable pub statement : Exec X.E (Unit {0})
  statement e = let (failure, e') = X.query_error e in (statement_result failure, e')

  -- The table, and an index, which changes no result.
  unfoldable pub run_migrations : Option Table → Exec X.E Table
  run_migrations stored = do statement; statement; pure (create_table stored)

  unfoldable pub init : Text → Exec X.E Table
  unfolding create_parent run_migrations
  init database_path = do
    create_parent (storage.parent database_path)
    stored ← asked (storage.connect (codes "sqlite:" ++ (database_path ++ codes "?mode=rwc")))
    run_migrations stored
