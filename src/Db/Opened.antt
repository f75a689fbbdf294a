-- ===== src/Db/Opened.antt =====
-- The table that src/db/mod.rs opens.
use steel_proxy.Common.{Text, ◌≡◌, refl, Option, none, some, ok}
use steel_proxy.Common.Exec.{Yields, Yields-bind, Yields-pure, then_run}
use steel_proxy.External.{External, Reply, answer, refusal, to_result}
use steel_proxy.Db.Table.{Table, create_table}
use steel_proxy.Db.Rows.{UniqueRows}
use steel_proxy.Db.Init
use steel_proxy.Db.Init.{Storage}

-- SQLite keeps the constraint UNIQUE(pr_number) of a table that it has.
abbrev pub KeepsUnique : {E : Type 0} → Storage E → Type 0
KeepsUnique {E} storage =
    (url : Text) (e : E) (t : Table)
    → (storage.connect url e).0 ≡ answer (some t)
    → UniqueRows t.rows

module _ (X : External) (storage : Storage X.E) where
  abbrev HasUnique : Table → Type 0
  HasUnique t = UniqueRows t.rows

  create_table-UniqueRows :
      (stored : Option Table)
      → ((t : Table) → stored ≡ some t → UniqueRows t.rows)
      → UniqueRows (create_table stored).rows
  unfolding create_table
  create_table-UniqueRows none h = tt
  create_table-UniqueRows (some t) h = h t refl

  migrated :
      (stored : Option Table)
      → UniqueRows (create_table stored).rows
      → Yields HasUnique (Init.run_migrations X storage stored)
  unfolding Init.run_migrations
  migrated stored u =
      Yields-bind (Init.statement X storage) _
        λ first. Yields-bind (Init.statement X storage) _ λ second. Yields-pure _ u

  connected :
      (r : Reply (Option Table)) (e : X.E) (t : Table)
      → ((stored : Table) → r ≡ answer (some stored) → UniqueRows stored.rows)
      → (then_run (Init.run_migrations X storage) (to_result r) e).0 ≡ ok t
      → UniqueRows t.rows
  connected (answer stored) e t h opened =
      (migrated stored (create_table-UniqueRows stored (λ u same. h u (rw same refl)))).at e t
        opened
  connected (refusal m) e t h opened = cc

  pub init-UniqueRows :
      (path : Text) → KeepsUnique storage → Yields HasUnique (Init.init X storage path)
  unfolding Init.init Init.asked
  init-UniqueRows path h =
      Yields-bind (Init.create_parent X storage (storage.parent path)) _
        λ made. record { at = λ e t opened. connected _ _ t (h _ e) opened }
