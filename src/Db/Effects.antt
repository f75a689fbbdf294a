-- ===== src/Db/Effects.antt =====
-- The statements of src/db/models.rs whose failure the code ignores, and the world.
use steel_proxy.Common.{ℕ, Text, ◌≡◌, ok, err, ◌⊎◌, inl, inr, Option-cases}
use steel_proxy.External.{External}
use steel_proxy.World.{World, outside, query}
use steel_proxy.Db.Table.{Table, Values}
use steel_proxy.Db.Table
use steel_proxy.Db.Queries

module _ (X : External) where
  query-cases {ℓ} :
      {A : Type ℓ} (f : Table → A × Table) (w : World X.E)
      → ((e : X.E) × (query X f w
            ≡ (ok (f w.builds).0, record w { builds = (f w.builds).1; ext = e })))
        ⊎ ((m : Text) × (e : X.E) × (query X f w ≡ (err m, record w { ext = e })))
  unfolding query
  query-cases f w = elim (Option-cases (X.query_error w.ext).0) [
    | inl fine ↦ inl ((X.query_error w.ext).1, rw fine)
    | inr (m, broken) ↦ inr (m, (X.query_error w.ext).1, rw broken)
  ]

  -- An upsert stores its values under some time and row number, or fails and stores nothing.
  pub upsert-cases :
      (n : ℕ) (v : Values) (w : World X.E)
      → ((e : X.E) × (now : Text) × (id : ℕ) × (Queries.upsert X n v w
            ≡ (ok tt, record w { builds = Table.upsert now id n v w.builds; ext = e })))
        ⊎ ((m : Text) × (e : X.E) × (Queries.upsert X n v w ≡ (err m, record w { ext = e })))
  unfolding Queries.upsert outside
  upsert-cases n v w =
      let (now, e1) = X.datetime w.ext in
      let (id, e2) = X.next_rowid e1 in
      elim (query-cases {0} (λ t. (tt, Table.upsert now id n v t)) (record w { ext = e2 })) [
        | inl (e, p) ↦ inl (e, now, id, p)
        | inr (m, e, p) ↦ inr (m, e, p)
      ]

  pub delete-cases :
      (n : ℕ) (w : World X.E)
      → ((e : X.E) × (Queries.delete X n w
            ≡ (ok tt, record w { builds = Table.delete n w.builds; ext = e })))
        ⊎ ((m : Text) × (e : X.E) × (Queries.delete X n w ≡ (err m, record w { ext = e })))
  unfolding Queries.delete
  delete-cases n w = query-cases {0} (λ t. (tt, Table.delete n t)) w
