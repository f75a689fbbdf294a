-- ===== src/System/Sound.antt =====
-- What holds of the shared state at every moment, whichever task acts next (src/proxy.rs,
-- src/k8s/mod.rs, src/db/models.rs).
use steel_proxy.Common.{
  ℕ, nat_eq, ◌<◌, ◌^◌, Text, text_eq, ◌≡◌, refl, [], ◌∷◌, Option-cases, inl, inr, Bool-cases, All,
  arith, ◌==◌,
}
use steel_proxy.Common.Map.{
  HashMap, lookup, insert, remove, UniqueKeys, insert-UniqueKeys, remove-UniqueKeys,
}
use steel_proxy.Config.Types.{BackendServer}
use steel_proxy.World.{World, broadcast}
use steel_proxy.Db.Rows.{UniqueRows, upsert-UniqueRows, delete-UniqueRows}
use steel_proxy.K8s.Instance.{PrInstance, InstanceState}
use steel_proxy.K8s.Instances.{
  backend_name, insert_instance, update_instance_state, remove_instance, register_backend,
  unregister_backend,
}
use steel_proxy.Proxy.Backends.{add_dynamic, remove_dynamic}
use steel_proxy.Proxy.Server.{next_client, set_target_server, get_target_server}
use steel_proxy.System.Steps.{
  Step, Reaches, arrived, moves, calls, announces, numbers, switches, takes, inserts, updates,
  removes, registers, unregisters, stores, forgets,
}

-- The name of an entry is that of some PR's backend.
abbrev pub IsOfPr : Text × BackendServer → Type 0
IsOfPr entry = (n : ℕ) × (entry.0 ≡ backend_name n)

pub record IsSound (static : HashMap Text BackendServer) {E : Type 0} (w : World E) : Type 0 where
  pub unchanged : w.backends.static_backends ≡ static
  pub one_backend : UniqueKeys w.backends.dynamic_backends
  pub of_prs : All IsOfPr w.backends.dynamic_backends
  pub one_instance : UniqueKeys w.instances
  pub one_row : UniqueRows w.builds.rows
  pub counted : w.next_client_id < 2 ^ 64

insert-IsOfPr :
    (n : ℕ) (b : BackendServer) (m : HashMap Text BackendServer)
    → All IsOfPr m
    → All IsOfPr (insert (backend_name n) b m)
unfolding insert
insert-IsOfPr n b [] h = ((n, refl), tt)
insert-IsOfPr n b ((key, old) ∷ rest) h = elim (Bool-cases (key == backend_name n)) [
  | inl same ↦ rw same ((n, refl), h.1)
  | inr apart ↦ rw apart (h.0, insert-IsOfPr n b rest h.1)
]

remove-IsOfPr :
    (name : Text) (m : HashMap Text BackendServer) → All IsOfPr m → All IsOfPr (remove name m)
unfolding remove
remove-IsOfPr name [] h = tt
remove-IsOfPr name ((key, old) ∷ rest) h = elim (Bool-cases (key == name)) [
  | inl same ↦ rw same (remove-IsOfPr name rest h.1)
  | inr apart ↦ rw apart (h.0, remove-IsOfPr name rest h.1)
]

module _ {static : HashMap Text BackendServer} {E : Type 0} where
  -- A change of the instances.
  with_instances-IsSound :
      (w : World E) (m : HashMap ℕ PrInstance)
      → UniqueKeys m
      → IsSound static w
      → IsSound static (record w { instances = m })
  with_instances-IsSound w m u h = record {
    unchanged = h.unchanged;
    one_backend = h.one_backend;
    of_prs = h.of_prs;
    one_instance = u;
    one_row = h.one_row;
    counted = h.counted;
  }

  update-IsSound :
      (w : World E) (n : ℕ) (s : InstanceState)
      → IsSound static w
      → IsSound static (update_instance_state n s w)
  unfolding update_instance_state
  update-IsSound w n s h = elim (Option-cases (lookup n w.instances)) [
    | inl absent ↦ rw absent h
    | inr (i, there) ↦ rw there (
        with_instances-IsSound w _
          (insert-UniqueKeys n (record i { state = s }) w.instances h.one_instance) h)
  ]

  Step-IsSound : (w u : World E) → Step w u → IsSound static w → IsSound static u
  unfolding broadcast next_client set_target_server get_target_server insert_instance
      remove_instance register_backend unregister_backend add_dynamic remove_dynamic
  Step-IsSound w _ (calls _ e) h = record {
    unchanged = h.unchanged;
    one_backend = h.one_backend;
    of_prs = h.of_prs;
    one_instance = h.one_instance;
    one_row = h.one_row;
    counted = h.counted;
  }
  Step-IsSound w _ (announces _ m) h = record {
    unchanged = h.unchanged;
    one_backend = h.one_backend;
    of_prs = h.of_prs;
    one_instance = h.one_instance;
    one_row = h.one_row;
    counted = h.counted;
  }
  Step-IsSound w _ (numbers _) h = record {
    unchanged = h.unchanged;
    one_backend = h.one_backend;
    of_prs = h.of_prs;
    one_instance = h.one_instance;
    one_row = h.one_row;
    counted = ground arith;
  }
  Step-IsSound w _ (switches _ uuid name) h = record {
    unchanged = h.unchanged;
    one_backend = h.one_backend;
    of_prs = h.of_prs;
    one_instance = h.one_instance;
    one_row = h.one_row;
    counted = h.counted;
  }
  Step-IsSound w _ (takes _ uuid) h = record {
    unchanged = h.unchanged;
    one_backend = h.one_backend;
    of_prs = h.of_prs;
    one_instance = h.one_instance;
    one_row = h.one_row;
    counted = h.counted;
  }
  Step-IsSound w _ (inserts _ n i) h =
      with_instances-IsSound w _ (insert-UniqueKeys n i w.instances h.one_instance) h
  Step-IsSound w _ (updates _ n s) h = update-IsSound w n s h
  Step-IsSound w _ (removes _ n) h =
      with_instances-IsSound w _ (remove-UniqueKeys n w.instances h.one_instance) h
  Step-IsSound w _ (registers _ n a port) h = record {
    unchanged = h.unchanged;
    one_backend = insert-UniqueKeys _ _ w.backends.dynamic_backends h.one_backend;
    of_prs = insert-IsOfPr n _ w.backends.dynamic_backends h.of_prs;
    one_instance = h.one_instance;
    one_row = h.one_row;
    counted = h.counted;
  }
  Step-IsSound w _ (unregisters _ n) h = record {
    unchanged = h.unchanged;
    one_backend = remove-UniqueKeys _ w.backends.dynamic_backends h.one_backend;
    of_prs = remove-IsOfPr _ w.backends.dynamic_backends h.of_prs;
    one_instance = h.one_instance;
    one_row = h.one_row;
    counted = h.counted;
  }
  Step-IsSound w _ (stores _ now id n v) h = record {
    unchanged = h.unchanged;
    one_backend = h.one_backend;
    of_prs = h.of_prs;
    one_instance = h.one_instance;
    one_row = upsert-UniqueRows now id n v w.builds h.one_row;
    counted = h.counted;
  }
  Step-IsSound w _ (forgets _ n) h = record {
    unchanged = h.unchanged;
    one_backend = h.one_backend;
    of_prs = h.of_prs;
    one_instance = h.one_instance;
    one_row = delete-UniqueRows n w.builds h.one_row;
    counted = h.counted;
  }

  -- What is sound stays so, whatever the tasks do.
  pub Reaches-IsSound : (w u : World E) → Reaches w u → IsSound static w → IsSound static u
  Reaches-IsSound w _ (arrived _) h = h
  Reaches-IsSound w v (moves _ u _ s p) h = Reaches-IsSound u v p (Step-IsSound w u s h)
