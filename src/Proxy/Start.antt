-- ===== src/Proxy/Start.antt =====
-- `start_pr` of src/proxy.rs as a whole, and the tables of the proxy.
use steel_proxy.Common.{
  ℕ, nat_eq, nat_beq_iff, Text, text_eq, codes, show, ◌++◌, ◌≡◌, refl, sym, subst, Option, none,
  some, Bool, true, false, ◌⊎◌, Result, ok, err, arith, if◌then◌else◌,
}
use steel_proxy.Common.Exec.{Exec, pure, lift, fail, ◌>>=◌, ◌>>◌}
use steel_proxy.Common.Map.{lookup-insert, contains_key-lookup, insert-UniqueKeys}
use steel_proxy.Config.Types.{ProxyConfig, JenkinsConfig, GitHubConfig, KubernetesConfig}
use steel_proxy.External.{External, Reply}
use steel_proxy.World.{World, broadcast}
use steel_proxy.Proxy.Server
use steel_proxy.Proxy.Server.{required}
use steel_proxy.Proxy.Backends.{contains}
use steel_proxy.K8s.Instance.{PrInstance}
use steel_proxy.K8s.Instances.{backend_name, insert_instance, has_instance}
use steel_proxy.K8s.Machine.{shared}
use steel_proxy.K8s.Consistency.{backend_of_state}
use steel_proxy.K8s.Rounds.{IsValid}
use steel_proxy.Proxy.Launch.{IsFresh, Launched, refused, launched, fetch_commit-Launched}

-- How a start ends, from the tables `w`: refused, or with a new instance of a PR that had neither
-- an instance nor a backend.
pub data Started (n : ℕ) (w : World (Unit {0})) {E : Type 0} (run : Result (Unit {0}) × World E)
    : Type 0 where
  refused_start : (e : Text) → run.0 ≡ err e → shared run.1 ≡ w → Started n w run
  started :
      (i : PrInstance)
      → IsFresh n i
      → has_instance n w ≡ false
      → contains w.backends (backend_name n) ≡ false
      → run.0 ≡ ok tt
      → shared run.1 ≡ insert_instance n i w
      → Started n w run

Started-Launched :
    (n : ℕ) (w : World (Unit {0})) {E : Type 0} (run : Result (Unit {0}) × World E)
    → has_instance n w ≡ false
    → contains w.backends (backend_name n) ≡ false
    → Launched n w run
    → Started n w run
Started-Launched n w run absent free (refused e p q) = refused_start e p q
Started-Launched n w run absent free (launched i fresh p q) = started i fresh absent free p q

abbrev blocked : (known taken : Bool) (n : ℕ) {E : Type 0} → Exec (World E) (Unit {0})
blocked known taken n =
    if known
    then fail (codes "PR #" ++ (show n ++ codes " is already being built or running"))
    else if taken
    then fail (codes "PR #" ++ (show n ++ codes " instance already exists"))
    else pure tt

module _ (X : External) (head_sha : X.Json → Reply Text) (config : ProxyConfig) where
  after_checks :
      (n : ℕ) (w : World X.E) (github : GitHubConfig) (jenkins : JenkinsConfig) (known taken : Bool)
      → has_instance n (shared w) ≡ known
      → contains w.backends (backend_name n) ≡ taken
      → Started n
          (shared w)
          ((blocked known taken n >> Server.launch X head_sha config github jenkins n) w)
  unfolding Server.launch broadcast
  after_checks n w github jenkins true taken hk ht = refused_start _ refl refl
  after_checks n w github jenkins false true hk ht = refused_start _ refl refl
  after_checks n w github jenkins false false hk ht =
      Started-Launched n (shared w) _ hk ht
        (fetch_commit-Launched X head_sha config github jenkins n _)

  configured :
      (n : ℕ) (w : World X.E) (g : Option GitHubConfig) (j : Option JenkinsConfig)
      (k : Option KubernetesConfig)
      → Started n (shared w) (
          (do
            github ← lift (required (codes "GitHub not configured") g)
            jenkins ← lift (required (codes "Jenkins not configured") j)
            k8s ← lift (required (codes "Kubernetes not configured") k)
            Server.check_free X head_sha config n
            Server.launch X head_sha config github jenkins n)
            w)
  unfolding Server.check_free has_instance
  configured n w none j k = refused_start _ refl refl
  configured n w (some g) none k = refused_start _ refl refl
  configured n w (some g) (some j) none = refused_start _ refl refl
  configured n w (some g) (some j) (some k) =
      after_checks n w g j (has_instance n w) (contains w.backends (backend_name n)) refl refl

  -- Whatever is outside answers, a start returns: it is refused with an error and leaves the
  -- tables as they are, or it makes one fresh instance of a PR that had neither an instance nor a
  -- backend, and changes nothing else of the tables.
  pub start_pr-Started :
      (n : ℕ) (w : World X.E) → Started n (shared w) (Server.start_pr X head_sha config n w)
  unfolding Server.start_pr
  start_pr-Started n w = configured n w config.github config.jenkins config.kubernetes

  blocked_taken :
      (n : ℕ) (w : World X.E) (g : GitHubConfig) (j : JenkinsConfig) (known taken : Bool)
      → (known ≡ true) ⊎ (taken ≡ true)
      → (e : Text) × ((blocked known taken n >> Server.launch X head_sha config g j n) w
          ≡ (err e, w))
  blocked_taken n w g j true taken h = (_, refl)
  blocked_taken n w g j false true h = (_, refl)
  blocked_taken n w g j false false h = absurd (ground arith)

  configured_taken :
      (n : ℕ) (w : World X.E) (g : Option GitHubConfig) (j : Option JenkinsConfig)
      (k : Option KubernetesConfig)
      → (has_instance n w ≡ true) ⊎ (contains w.backends (backend_name n) ≡ true)
      → (e : Text) × (((do
        github ← lift (required (codes "GitHub not configured") g)
        jenkins ← lift (required (codes "Jenkins not configured") j)
        k8s ← lift (required (codes "Kubernetes not configured") k)
        Server.check_free X head_sha config n
        Server.launch X head_sha config github jenkins n)
            w)
          ≡ (err e, w))
  unfolding Server.check_free
  configured_taken n w none j k h = (_, refl)
  configured_taken n w (some g) none k h = (_, refl)
  configured_taken n w (some g) (some j) none h = (_, refl)
  configured_taken n w (some g) (some j) (some k) h =
      blocked_taken n w g j (has_instance n w) (contains w.backends (backend_name n)) h

  -- A PR that has an instance or a backend cannot be started: the answer is an error, and nothing
  -- at all has happened, in the proxy or outside.
  pub start_pr_taken :
      (n : ℕ) (w : World X.E)
      → (has_instance n w ≡ true) ⊎ (contains w.backends (backend_name n) ≡ true)
      → (e : Text) × (Server.start_pr X head_sha config n w ≡ (err e, w))
  unfolding Server.start_pr
  start_pr_taken n w taken =
      configured_taken n w config.github config.jenkins config.kubernetes taken

  pub fresh-backend : (n : ℕ) (i : PrInstance) → IsFresh n i → backend_of_state n i.state ≡ none
  fresh-backend n i f = ground (arith, f.begins)

  pub insert-IsValid :
      (n : ℕ) (i : PrInstance) (w : World (Unit {0}))
      → IsFresh n i
      → has_instance n w ≡ false
      → IsValid w
      → IsValid (insert_instance n i w)
  unfolding insert_instance has_instance
  insert-IsValid n i w fresh absent v = record {
    unique = insert-UniqueKeys n i w.instances v.unique;
    consistent = record {
      backed = λ j. rw lookup-insert (
          ground (
            arith,
            v.consistent.backed j,
            nat_beq_iff n j,
            fresh-backend n i fresh,
            contains_key-lookup n w.instances,
          ));
    };
  }

  -- A start, whatever comes of it, keeps the instances and the backends consistent.
  pub start_pr-IsValid :
      (n : ℕ) (w : World X.E) → IsValid w → IsValid (Server.start_pr X head_sha config n w).1
  start_pr-IsValid n w v = back (after (start_pr-Started n w))
    where
      v' : IsValid (shared w)
      v' = record { unique = v.unique; consistent = record { backed = v.consistent.backed } }

      after :
          Started n (shared w) (Server.start_pr X head_sha config n w)
          → IsValid (shared (Server.start_pr X head_sha config n w).1)
      after (refused_start e p q) = subst IsValid (sym q) v'
      after (started i fresh absent free p q) =
          subst IsValid (sym q) (insert-IsValid n i (shared w) fresh absent v')

      back :
          IsValid (shared (Server.start_pr X head_sha config n w).1)
          → IsValid (Server.start_pr X head_sha config n w).1
      back u = record { unique = u.unique; consistent = record { backed = u.consistent.backed } }
