-- ===== src/K8s/Revived.antt =====
-- Where the instances come from that `recover_from_db` of src/k8s/mod.rs adds.
use steel_proxy.Common.{
  ℕ, ◌+◌, nat_eq, nat_beq, nat_beq_iff, Text, ◌≡◌, refl, ap, ◌∙◌, sym, Option, none, some,
  Bool-cases, true, false, Option-cases, ◌⊎◌, inl, inr, ok, List, [], ◌∷◌, if◌then◌else◌,
}
use steel_proxy.Common.Map.{lookup, lookup-insert}
use steel_proxy.Config.Types.{KubernetesConfig}
use steel_proxy.External.{External}
use steel_proxy.World.{World, outside, query}
use steel_proxy.World.Quiet.{Quiet-cases}
use steel_proxy.Db.Table.{PrBuild}
use steel_proxy.Db.Table
use steel_proxy.Db.Queries
use steel_proxy.Db.Effects.{delete-cases}
use steel_proxy.K8s.Instance.{PrInstance}
use steel_proxy.K8s.Instances.{insert_instance, register_backend}
use steel_proxy.K8s.Manager
use steel_proxy.K8s.Manager.{resource_name}
use steel_proxy.K8s.Quiet.{is_deployment_ready-Quiet, get_service_info-Quiet}
use steel_proxy.K8s.Recovered.{recover_build-counts}
use steel_proxy.K8s.Recovery
use steel_proxy.K8s.Recovery.{pr_number_of, recovered_instance}

module _ (X : External) (config : KubernetesConfig) (n : ℕ) (i : PrInstance) where
  -- The instance is made of this build: it is of its PR and ready, Kubernetes said that the PR's
  -- deployment is available, and then which address and port the PR's service has.
  pub record IsMadeOf (build : PrBuild) : Type 0 where
    pub numbered : pr_number_of build ≡ n
    pub asked : World X.E
    pub e1 : X.E
    pub e2 : X.E
    pub address : Text
    pub port : ℕ
    pub since : ℕ
    pub until : ℕ
    pub available :
        Manager.is_deployment_ready X config (resource_name (pr_number_of build)) asked
        ≡ (ok true, record asked { ext = e1 })
    pub exposed :
        Manager.get_service_info X config (pr_number_of build) (record asked { ext = e1 })
        ≡ (ok (some (address, port)), record asked { ext = e2 })
    pub same : i ≡ recovered_instance (pr_number_of build) build address port since until

  -- One of the builds.
  abbrev pub AnyOf : List PrBuild → Type 0
  AnyOf [] = ⊥
  AnyOf (build ∷ rest) = IsMadeOf build ⊎ AnyOf rest

  -- What was in the table, or is made of the build.
  Adds : PrBuild → World X.E → World X.E → Type 0
  Adds build w u = lookup n u.instances ≡ some i → (lookup n w.instances ≡ some i) ⊎ IsMadeOf build

  forget_build-stays :
      (m : ℕ) (w : World X.E) → (Recovery.forget_build X config m w).1.instances ≡ w.instances
  unfolding Recovery.forget_build
  forget_build-stays m w = elim (delete-cases X m w) [
    | inl (e, p) ↦ rw p refl
    | inr (t, e, p) ↦ rw p refl
  ]

  unchanged-Adds : (build : PrBuild) (w u : World X.E) → u.instances ≡ w.instances → Adds build w u
  unfolding Adds
  unchanged-Adds build w u same found = inl (ap (lookup n) (sym same) ∙ found)

  inserted :
      (m : ℕ) (new : PrInstance) (old : Option PrInstance)
      → (if nat_beq m n then some new else old) ≡ some i
      → (old ≡ some i) ⊎ ((m ≡ n) × (i ≡ new))
  inserted m new old h = elim (Bool-cases (nat_beq m n)) [
    | inl this ↦ inr ((nat_beq_iff m n).0 this, some-new (sym (rw this at h)))
    | inr other ↦ inl (rw other at h)
  ]
    where
      some-new : some i ≡ some new → i ≡ new
      some-new e = cc

  with_service-Adds :
      (build : PrBuild) (asked : World X.E) (e1 e2 : X.E) (address : Text) (port : ℕ)
      → Manager.is_deployment_ready X config (resource_name (pr_number_of build)) asked
        ≡ (ok true, record asked { ext = e1 })
      → Manager.get_service_info X config (pr_number_of build) (record asked { ext = e1 })
        ≡ (ok (some (address, port)), record asked { ext = e2 })
      → Adds build asked
          (Recovery.with_service X config
            (pr_number_of build)
            build
            (some (address, port))
            (record asked { ext = e2 })).1
  unfolding Recovery.with_service outside insert_instance register_backend Adds
  with_service-Adds build asked e1 e2 address port up at found =
      elim (inserted (pr_number_of build) _ _ (rw lookup-insert at found)) [
        | inl before ↦ inl before
        | inr (this, same) ↦ inr (record {
          numbered = this;
          asked = asked;
          e1 = e1;
          e2 = e2;
          address = address;
          port = port;
          since = _;
          until = _;
          available = up;
          exposed = at;
          same = same;
        })
      ]

  recover_build-Adds :
      (build : PrBuild) (w : World X.E) → Adds build w (Recovery.recover_build X config build w).1
  unfolding Recovery.recover_build Recovery.if_ready Recovery.with_service
  recover_build-Adds build w =
      elim (Quiet-cases _ (is_deployment_ready-Quiet X config (resource_name (pr_number_of build)))
        w) [
          | inr (m, e, p) ↦ rw p (unchanged-Adds build w _ (forget_build-stays _ _))
          | inl (false, e, p) ↦ rw p (unchanged-Adds build w _ refl)
          | inl (true, e, p) ↦
              rw p
                (elim (Quiet-cases _ (get_service_info-Quiet X config (pr_number_of build))
                  (record w { ext = e })) [
                    | inr (m, e', q) ↦ rw q (unchanged-Adds build w _ (forget_build-stays _ _))
                    | inl (none, e', q) ↦ rw q (unchanged-Adds build w _ (forget_build-stays _ _))
                    | inl (some (a, port), e', q) ↦ rw q (with_service-Adds build w e e' a port p q)
                  ])
        ]

  recover_builds-AnyOf :
      (builds : List PrBuild) (k : ℕ) (w : World X.E)
      → lookup n (Recovery.recover_builds X config builds k w).1.instances ≡ some i
      → (lookup n w.instances ≡ some i) ⊎ AnyOf builds
  unfolding Recovery.recover_builds Adds
  recover_builds-AnyOf [] k w found = inl found
  recover_builds-AnyOf (build ∷ rest) k w found =
      go (recover_build-counts X config build w) λ m. recover_builds-AnyOf rest (k + m) u
    where
      u : World X.E
      u = (Recovery.recover_build X config build w).1

      first :
          (lookup n u.instances ≡ some i) ⊎ AnyOf rest
          → (lookup n w.instances ≡ some i) ⊎ AnyOf (build ∷ rest)
      first (inr later) = inr (inr later)
      first (inl now) = elim (recover_build-Adds build w now) [
        | inl before ↦ inl before
        | inr made ↦ inr (inl made)
      ]

      go :
          (m : ℕ) × ((Recovery.recover_build X config build w).0 ≡ ok m)
          → ((m : ℕ)
              → lookup n (Recovery.recover_builds X config rest (k + m) u).1.instances ≡ some i
              → (lookup n u.instances ≡ some i) ⊎ AnyOf rest)
          → (lookup n w.instances ≡ some i) ⊎ AnyOf (build ∷ rest)
      go (m, done) later = first (later m (rw done at found))

  -- An instance that is in the table after recovery was there before, or is made of one of the
  -- builds that the query for active builds gave: it is of that build's PR and commit and ready,
  -- Kubernetes said that the PR's deployment is available, and the address and the port are those
  -- that Kubernetes then gave for its service. This holds however recovery ends.
  pub recover_from_db-AnyOf :
      (w : World X.E)
      → lookup n (Recovery.recover_from_db X config w).1.instances ≡ some i
      → (lookup n w.instances ≡ some i) ⊎ AnyOf (Table.get_active_builds w.builds)
  unfolding Recovery.recover_from_db Queries.get_active_builds query
  recover_from_db-AnyOf w found = elim (Option-cases (X.query_error w.ext).0) [
    | inl fine ↦ recover_builds-AnyOf _ 0 _ (rw fine at found)
    | inr (m, broken) ↦ inl (rw broken at found)
  ]
