-- ===== src/K8s/Recovered.antt =====
-- The tables of the proxy after `recover_from_db` of src/k8s/mod.rs.
use steel_proxy.Common.{
  ℕ, ◌+◌, nat_eq, nat_beq_iff, Text, text_eq, ◌≡◌, refl, Option, none, some, Bool, true, false,
  Option-cases, inl, inr, Result, ok, arith, List, [], ◌∷◌,
}
use steel_proxy.Common.Map.{lookup-insert, insert-UniqueKeys}
use steel_proxy.Config.Types.{KubernetesConfig}
use steel_proxy.External.{External}
use steel_proxy.World.{World, outside, query}
use steel_proxy.World.Quiet.{Quiet-cases, IsReturned, value, error}
use steel_proxy.Db.Table.{PrBuild}
use steel_proxy.Db.Table
use steel_proxy.Db.Queries
use steel_proxy.Db.Effects.{delete-cases}
use steel_proxy.Proxy.Backends.{add_dynamic}
use steel_proxy.K8s.Instance.{ready, PrInstance}
use steel_proxy.K8s.Instances.{insert_instance, register_backend}
use steel_proxy.K8s.Manager.{resource_name}
use steel_proxy.K8s.Quiet.{is_deployment_ready-Quiet, get_service_info-Quiet}
use steel_proxy.K8s.Recovery
use steel_proxy.K8s.Recovery.{pr_number_of}
use steel_proxy.K8s.Consistency.{beq-backend_name}
use steel_proxy.K8s.Rounds.{IsValid}

-- A run that returns a number and keeps the tables valid.
record Keeps {E : Type 0} (w : World E) (run : Result ℕ × World E) : Type 0 where
  count : ℕ
  returns : run.0 ≡ ok count
  valid : IsValid w → IsValid run.1

-- Both tables get the ready instance.
pub ready-IsValid :
    {E : Type 0} (n : ℕ) (a : Text) (port : ℕ) (i : PrInstance) (w : World E)
    → (d : Text) (since until : ℕ) → i.state ≡ ready d a port since until
    → IsValid w
    → IsValid (register_backend n a port (insert_instance n i w))
unfolding register_backend insert_instance add_dynamic
ready-IsValid n a port i w d since until e v = record {
  unique = insert-UniqueKeys n i w.instances v.unique;
  consistent = record {
    backed = λ j.
        rw (lookup-insert, beq-backend_name, lookup-insert)
          (ground (arith, v.consistent.backed j, nat_beq_iff n j, e));
  };
}

module _ (X : External) (config : KubernetesConfig) where
  forget_build-Keeps : (n : ℕ) (w : World X.E) → Keeps w (Recovery.forget_build X config n w)
  unfolding Recovery.forget_build
  forget_build-Keeps n w = elim (delete-cases X n w) [
    | inl (e, p) ↦ rw p (record {
      count = 0;
      returns = refl;
      valid =
          λ v. record { unique = v.unique; consistent = record { backed = v.consistent.backed } };
    })
    | inr (m, e, p) ↦ rw p (record {
      count = 0;
      returns = refl;
      valid =
          λ v. record { unique = v.unique; consistent = record { backed = v.consistent.backed } };
    })
  ]

  with_service-Keeps :
      (n : ℕ) (build : PrBuild) (endpoint : Option (Text × ℕ)) (w : World X.E)
      → Keeps w (Recovery.with_service X config n build endpoint w)
  unfolding Recovery.with_service outside
  with_service-Keeps n build none w = forget_build-Keeps n w
  with_service-Keeps n build (some (a, port)) w = record {
    count = 1;
    returns = refl;
    valid = λ v.
        ready-IsValid n a port _ _ (resource_name n) _ _ refl
          (record { unique = v.unique; consistent = record { backed = v.consistent.backed } });
  }

  -- The same from a world in which only the outside has changed.
  Keeps-outside :
      (w : World X.E) (e : X.E) {run : Result ℕ × World X.E}
      → Keeps (record w { ext = e }) run
      → Keeps w run
  Keeps-outside w e k = record {
    count = k.count;
    returns = k.returns;
    valid = λ v.
        k.valid
          (record { unique = v.unique; consistent = record { backed = v.consistent.backed } });
  }

  stays-Keeps : (w : World X.E) → Keeps w (ok 0, w)
  stays-Keeps w = record { count = 0; returns = refl; valid = λ v. v }

  if_ready-Keeps :
      (n : ℕ) (build : PrBuild) (available : Bool) (w : World X.E)
      → Keeps w (Recovery.if_ready X config n build available w)
  unfolding Recovery.if_ready
  if_ready-Keeps n build false w = stays-Keeps w
  if_ready-Keeps n build true w = elim (Quiet-cases _ (get_service_info-Quiet X config n) w) [
    | inl (o, e, p) ↦ rw p (Keeps-outside w e (with_service-Keeps n build o _))
    | inr (m, e, p) ↦ rw p (Keeps-outside w e (forget_build-Keeps n _))
  ]

  recover_build-Keeps :
      (build : PrBuild) (w : World X.E) → Keeps w (Recovery.recover_build X config build w)
  unfolding Recovery.recover_build
  recover_build-Keeps build w =
      elim (Quiet-cases _ (is_deployment_ready-Quiet X config (resource_name (pr_number_of build)))
        w) [
          | inl (b, e, p) ↦ rw p (Keeps-outside w e (if_ready-Keeps (pr_number_of build) build b _))
          | inr (m, e, p) ↦ rw p (Keeps-outside w e (forget_build-Keeps (pr_number_of build) _))
        ]

  -- A build is recovered or not, but never ends the recovery.
  pub recover_build-counts :
      (build : PrBuild) (w : World X.E)
      → (m : ℕ) × ((Recovery.recover_build X config build w).0 ≡ ok m)
  recover_build-counts build w = let k = recover_build-Keeps build w in (k.count, k.returns)

  recover_builds-Keeps :
      (builds : List PrBuild) (n : ℕ) (w : World X.E)
      → Keeps w (Recovery.recover_builds X config builds n w)
  unfolding Recovery.recover_builds
  recover_builds-Keeps [] n w = record { count = n; returns = refl; valid = λ v. v }
  recover_builds-Keeps (build ∷ rest) n w =
      go (recover_build-Keeps build w)
        (λ m. recover_builds-Keeps rest (n + m) (Recovery.recover_build X config build w).1)
    where
      go :
          Keeps w (Recovery.recover_build X config build w)
          → ((m : ℕ)
              → Keeps (Recovery.recover_build X config build w).1 (
                  Recovery.recover_builds X config rest
                    (n + m)
                    (Recovery.recover_build X config build w).1))
          → Keeps w (Recovery.recover_builds X config (build ∷ rest) n w)
      go k later = rw k.returns (record {
        count = (later k.count).count;
        returns = (later k.count).returns;
        valid = λ v. (later k.count).valid (k.valid v);
      })

  -- Recovery fails with the error of its query, or returns a count; either way the tables of the
  -- proxy stay valid.
  pub recover_from_db-IsValid :
      (w : World X.E) → IsValid w → IsValid (Recovery.recover_from_db X config w).1
  unfolding Recovery.recover_from_db Queries.get_active_builds query
  recover_from_db-IsValid w v = elim (Option-cases (X.query_error w.ext).0) [
    | inl fine ↦ rw fine (
        (recover_builds-Keeps _ 0 _).valid
          (record { unique = v.unique; consistent = record { backed = v.consistent.backed } }))
    | inr (m, broken) ↦
        rw broken
          (record { unique = v.unique; consistent = record { backed = v.consistent.backed } })
  ]

  pub recover_from_db-IsReturned :
      (w : World X.E) → IsReturned (Recovery.recover_from_db X config w).0
  unfolding Recovery.recover_from_db Queries.get_active_builds query
  recover_from_db-IsReturned w = elim (Option-cases (X.query_error w.ext).0) [
    | inl fine ↦
        rw
          (
            fine,
            (recover_builds-Keeps (Table.get_active_builds w.builds) 0
                (record w { ext = (X.query_error w.ext).1 })).returns,
          )
          (value _)
    | inr (m, broken) ↦ rw broken (error m)
  ]
