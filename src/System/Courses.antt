-- ===== src/System/Courses.antt =====
-- The starts of PRs and the lifecycle loop side by side (src/proxy.rs, src/k8s/lifecycle.rs), where
-- a start waits between its checks and its end.
use steel_proxy.Common.{
  ℕ, nat_eq, nat_beq, nat_beq_iff, Text, ◌≡◌, refl, sym, subst, ap, ◌∙◌, Bool, true, false,
  Bool-cases, inl, inr, none, some, List, [], ◌∷◌, ok, arith, is_some, Option-cases, if◌then◌else◌,
}
use steel_proxy.Common.Map.{
  lookup, contains_key, UniqueKeys, contains_key-lookup, lookup-insert, All-lookup,
}
use steel_proxy.Config.Types.{ProxyConfig, JenkinsConfig, GitHubConfig, KubernetesConfig}
use steel_proxy.External.{External, Reply}
use steel_proxy.World.{World, broadcast}
use steel_proxy.K8s.Instance.{PrInstance}
use steel_proxy.K8s.Instances.{has_instance, insert_instance, get_instances_snapshot}
use steel_proxy.K8s.Lifecycle.{handle_instance, handle_all, lifecycle_round}
use steel_proxy.K8s.Machine.{shared}
use steel_proxy.K8s.Rounds.{IsValid, handled, Current, Current-others}
use steel_proxy.K8s.Follows.Rounds.{handle_instance-Follows}
use steel_proxy.Proxy.Launch.{Launched, refused, launched, fetch_commit-Launched}
use steel_proxy.Proxy.Server
use steel_proxy.Proxy.Start.{insert-IsValid}

-- The PRs of which a start has passed its checks and has not come to its end.
abbrev is_pending : ℕ → List ℕ → Bool
is_pending n [] = false
is_pending n (m ∷ pending) = if nat_beq m n then true else is_pending n pending

abbrev without : ℕ → List ℕ → List ℕ
without n [] = []
without n (m ∷ pending) = let rest = without n pending in if nat_beq m n then rest else m ∷ rest

is_pending-without :
    (n m : ℕ) (pending : List ℕ)
    → is_pending m (without n pending) ≡ (if nat_beq n m then false else is_pending m pending)
is_pending-without n m [] = ground arith
is_pending-without n m (k ∷ pending) =
    ground
      (arith, is_pending-without n m pending, nat_beq_iff k n, nat_beq_iff k m, nat_beq_iff n m)

still :
    (n m : ℕ) (pending : List ℕ)
    → is_pending m (without n pending) ≡ true
    → (is_pending m pending ≡ true) × (nat_beq n m ≡ false)
still n m pending h =
    (ground (arith, is_pending-without n m pending), ground (arith, is_pending-without n m pending))

some-none : {i : PrInstance} → ¬ (some i ≡ none)
some-none e = cc

inserted_apart :
    {E : Type 0} (n m : ℕ) (i : PrInstance) (w : World E)
    → nat_beq n m ≡ false
    → lookup m (insert_instance n i w).instances ≡ lookup m w.instances
unfolding insert_instance
inserted_apart n m i w apart = lookup-insert n m i w.instances ∙ rw apart refl

to-shared : {E : Type 0} {w : World E} → IsValid w → IsValid (shared w)
to-shared v = record { unique = v.unique; consistent = record { backed = v.consistent.backed } }

from-shared : {E : Type 0} {w : World E} → IsValid (shared w) → IsValid w
from-shared v = record { unique = v.unique; consistent = record { backed = v.consistent.backed } }

module _ (X : External) (head_sha : X.Json → Reply Text) (config : ProxyConfig)
    (github : GitHubConfig) (jenkins : JenkinsConfig) (kubernetes : KubernetesConfig) where
  -- What happens next, if no start of a PR begins while another start of it waits.
  pub data Move : World X.E × List ℕ → World X.E × List ℕ → Type 0 where
    begins :
        (n : ℕ) (w : World X.E) (pending : List ℕ)
        → (Server.check_free X head_sha config n w).0 ≡ ok tt
        → is_pending n pending ≡ false
        → Move (w, pending) (w, n ∷ pending)
    comes_to_end :
        (n : ℕ) (w : World X.E) (pending : List ℕ)
        → is_pending n pending ≡ true
        → Move
            (w, pending)
            ((Server.launch X head_sha config github jenkins n w).1, without n pending)
    handles :
        (n : ℕ) (i : PrInstance) (w : World X.E) (pending : List ℕ)
        → lookup n w.instances ≡ some i
        → Move (w, pending) ((handle_instance X jenkins kubernetes n i w).1, pending)
    -- a task that has nothing to do with instances
    aside :
        (w u : World X.E) (pending : List ℕ)
        → u.instances ≡ w.instances
        → u.backends ≡ w.backends
        → Move (w, pending) (u, pending)

  pub data Course : World X.E × List ℕ → World X.E × List ℕ → Type 0 where
    ends : (s : World X.E × List ℕ) → Course s s
    goes_on : (s t u : World X.E × List ℕ) → Move s t → Course t u → Course s u

  -- A round over a snapshot whose entries the table holds is a course of handlings.
  handle_all-Course :
      (snapshot : List (ℕ × PrInstance)) (w : World X.E) (pending : List ℕ)
      → UniqueKeys snapshot
      → Current w snapshot
      → Course (w, pending) ((handle_all X jenkins kubernetes snapshot w).1, pending)
  unfolding handle_all
  handle_all-Course [] w pending unique current = ends (w, pending)
  handle_all-Course ((n, i) ∷ rest) w pending unique current =
      rw (handle_instance-Follows X jenkins kubernetes n i w).completes (
        goes_on (w, pending) (w', pending) _ (handles n i w pending current.0)
          (handle_all-Course rest w' pending unique.1 (
            Current-others X jenkins kubernetes n i w w' rest
              (handled X jenkins kubernetes n i w current.0) unique.0 current.1)))
    where
      w' : World X.E
      w' = (handle_instance X jenkins kubernetes n i w).1

  pub lifecycle_round-Course :
      (w : World X.E) (pending : List ℕ)
      → IsValid w
      → Course (w, pending) ((lifecycle_round X jenkins kubernetes w).1, pending)
  unfolding lifecycle_round get_instances_snapshot
  lifecycle_round-Course w pending v =
      handle_all-Course w.instances w pending v.unique (All-lookup w.instances v.unique)

  -- The tables are valid, and a PR of which a start waits has no instance.
  pub record IsCalm (s : World X.E × List ℕ) : Type 0 where
    pub valid : IsValid s.0
    pub free : (n : ℕ) → is_pending n s.1 ≡ true → lookup n s.0.instances ≡ none

  checked_free :
      (n : ℕ) (w : World X.E)
      → (Server.check_free X head_sha config n w).0 ≡ ok tt
      → lookup n w.instances ≡ none
  unfolding Server.check_free has_instance
  checked_free n w passed = elim (Option-cases (lookup n w.instances)) [
    | inl absent ↦ absent
    | inr (i, there) ↦ absurd (stopped (contains_key-lookup n w.instances ∙ ap is_some there))
  ]
    where
      stopped : contains_key n w.instances ≡ true → ⊥
      stopped known = cc (rw known at passed)

  launch-Launched :
      (n : ℕ) (w : World X.E)
      → Launched n (shared w) (Server.launch X head_sha config github jenkins n w)
  unfolding Server.launch broadcast
  launch-Launched n w = fetch_commit-Launched X head_sha config github jenkins n _

  -- The end of a start.
  ended :
      (n : ℕ) (w : World X.E) (pending : List ℕ)
      → is_pending n pending ≡ true
      → IsCalm (w, pending)
      → Launched n (shared w) (Server.launch X head_sha config github jenkins n w)
      → IsCalm ((Server.launch X head_sha config github jenkins n w).1, without n pending)
  unfolding has_instance
  ended n w pending waits c (refused e failed same) = record {
    valid = from-shared (subst IsValid (sym same) (to-shared c.valid));
    free = λ m h. ap (λ v. lookup m v.instances) same ∙ c.free m (still n m pending h).0;
  }
  ended n w pending waits c (launched i fresh done same) = record {
    valid = from-shared (
        subst IsValid (sym same)
          (insert-IsValid X head_sha config n i (shared w) fresh absent (to-shared c.valid)));
    free = λ m h.
        ap (λ v. lookup m v.instances) same
        ∙ inserted_apart n m i (shared w) (still n m pending h).1
        ∙ c.free m (still n m pending h).0;
  }
    where
      absent : has_instance n (shared w) ≡ false
      absent = contains_key-lookup n w.instances ∙ ap is_some (c.free n waits)

  Move-IsCalm : (s t : World X.E × List ℕ) → Move s t → IsCalm s → IsCalm t
  Move-IsCalm _ _ (begins n w pending passed alone) c = record {
    valid = c.valid;
    free = λ m waits. elim (Bool-cases (nat_beq n m)) [
      | inl same ↦
          subst (λ k. lookup k w.instances ≡ none) ((nat_beq_iff n m).0 same)
            (checked_free n w passed)
      | inr apart ↦ c.free m (rw apart at waits)
    ];
  }
  Move-IsCalm _ _ (comes_to_end n w pending waits) c =
      ended n w pending waits c (launch-Launched n w)
  Move-IsCalm _ _ (handles n i w pending there) c = record {
    valid = (handled X jenkins kubernetes n i w there).valid c.valid;
    free = λ m waits.
        (handled X jenkins kubernetes n i w there).others m
          (λ same. some-none (sym there ∙ ap (λ k. lookup k w.instances) same ∙ c.free m waits))
        ∙ c.free m waits;
  }
  Move-IsCalm _ _ (aside w u pending same_instances same_backends) c = record {
    valid = record {
      unique = subst UniqueKeys (sym same_instances) c.valid.unique;
      consistent = record {
        backed = λ n. rw (same_instances, same_backends) (c.valid.consistent.backed n);
      };
    };
    free = λ n waits. ap (lookup n) same_instances ∙ c.free n waits;
  }

  -- From valid tables in which a PR of which a start waits has no instance, starts that wait, in
  -- any number, and handlings of instances in any order lead to such tables again, as long as no
  -- start of a PR begins while another start of it waits.
  pub Course-IsCalm : (s t : World X.E × List ℕ) → Course s t → IsCalm s → IsCalm t
  Course-IsCalm s _ (ends _) c = c
  Course-IsCalm s u (goes_on _ t _ move rest) c = Course-IsCalm t u rest (Move-IsCalm s t move c)
