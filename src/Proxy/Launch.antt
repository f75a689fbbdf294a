-- ===== src/Proxy/Launch.antt =====
-- The part of `start_pr` of src/proxy.rs that follows its checks.
use steel_proxy.Common.{
  ℕ, nat_eq, Text, text_eq, ◌≡◌, refl, ap, some, Bool, true, false, Bool-cases, ◌⊎◌, inl, inr,
  Result, ok, err, arith, if◌then◌else◌, Option-cases,
}
use steel_proxy.Common.Exec.{Yields, Yields-bind}
use steel_proxy.Config.Types.{ProxyConfig, JenkinsConfig, GitHubConfig}
use steel_proxy.External.{External, Reply, answer, refusal, Response}
use steel_proxy.World.{World, outside, broadcast, query}
use steel_proxy.World.Quiet.{IsReturned, value, error, Quiet, Quiet-cases, quiet_rules}
use steel_proxy.Db.Queries
use steel_proxy.Github
use steel_proxy.Jenkins
use steel_proxy.Proxy.Server
use steel_proxy.Proxy.Server.{required}
use steel_proxy.K8s.Instance.{building, deploying, PrInstance, new_building, new_deploying}
use steel_proxy.K8s.Instances.{
  image_tag, insert_instance, create_building_instance, create_deploying_instance,
}
use steel_proxy.K8s.Machine.{shared}

-- A new instance of PR `n`, for some commit.
pub record IsFresh (n : ℕ) (i : PrInstance) : Type 0 where
  pub number : i.pr_number ≡ n
  pub short : i.commit_hash_short ≡ Github.short_sha i.commit_hash
  pub begins :
      (i.state ≡ deploying (image_tag n i.commit_hash_short))
      ⊎ ((t : ℕ) × (url : Text) × (i.state ≡ building t (some url)))

-- How a start ends, from the tables `w`.
pub data Launched (n : ℕ) (w : World (Unit {0})) {E : Type 0} (run : Result (Unit {0}) × World E)
    : Type 0 where
  refused : (e : Text) → run.0 ≡ err e → shared run.1 ≡ w → Launched n w run
  launched :
      (i : PrInstance)
      → IsFresh n i
      → run.0 ≡ ok tt
      → shared run.1 ≡ insert_instance n i w
      → Launched n w run

module _ (X : External) (head_sha : X.Json → Reply Text) where
  both_shas-IsReturned :
      (config : GitHubConfig) (r : Reply Text) → IsReturned (Github.both_shas X head_sha config r)
  both_shas-IsReturned config (answer sha) = value _
  both_shas-IsReturned config (refusal e) = error _

  if-IsReturned {ℓ} :
      {A : Type ℓ} (b : Bool) (r s : Result A)
      → IsReturned r
      → IsReturned s
      → IsReturned (if b then r else s)
  if-IsReturned true r s hr hs = hr
  if-IsReturned false r s hr hs = hs

  commit_of-IsReturned :
      (config : GitHubConfig) (r : Response X.Json)
      → IsReturned (Github.commit_of X head_sha config r)
  unfolding Github.commit_of
  commit_of-IsReturned config r =
      if-IsReturned (Jenkins.is_success r.status) _ _ (both_shas-IsReturned config _) (error _)

  get_pr_head_commit-Quiet :
      (config : GitHubConfig) (n : ℕ) → Quiet (Github.get_pr_head_commit X head_sha config n)
  unfolding Github.get_pr_head_commit
  get_pr_head_commit-Quiet config n = search (quiet_rules, commit_of-IsReturned) depth 8

  queue_url_of-IsReturned :
      (jenkins : JenkinsConfig) (r : Response X.Json)
      → IsReturned (Jenkins.queue_url_of X jenkins r)
  unfolding Jenkins.queue_url_of
  queue_url_of-IsReturned jenkins r =
      if-IsReturned (Jenkins.is_success r.status) _ _ (value _) (error _)

  trigger_build-Quiet :
      (jenkins : JenkinsConfig) (n : ℕ) (short : Text)
      → Quiet (Jenkins.trigger_build X jenkins n short)
  unfolding Jenkins.trigger_build
  trigger_build-Quiet jenkins n short = search (quiet_rules, queue_url_of-IsReturned) depth 8

  exists_with_commit-Quiet : (n : ℕ) (short : Text) → Quiet (Queries.exists_with_commit X n short)
  unfolding Queries.exists_with_commit query
  exists_with_commit-Quiet n short = record {
    returns = λ w. elim (Option-cases (X.query_error w.ext).0) [
      | inl fine ↦ rw fine (value _)
      | inr (m, broken) ↦ rw broken (error m)
    ];
    outside_only = λ w. elim (Option-cases (X.query_error w.ext).0) [
      | inl fine ↦ rw fine
      | inr (m, broken) ↦ rw broken
    ];
  }

  abbrev IsPair : Text × Text → Type 0
  IsPair shas = shas.1 ≡ Github.short_sha shas.0

  both_shas-IsPair :
      (config : GitHubConfig) (r : Reply Text) (shas : Text × Text)
      → Github.both_shas X head_sha config r ≡ ok shas
      → IsPair shas
  both_shas-IsPair config (answer sha) shas e = ground arith
  both_shas-IsPair config (refusal m) shas e = cc

  commit_of-IsPair :
      (config : GitHubConfig) (r : Response X.Json) (shas : Text × Text)
      → Github.commit_of X head_sha config r ≡ ok shas
      → IsPair shas
  unfolding Github.commit_of
  commit_of-IsPair config r shas e = elim (Bool-cases (Jenkins.is_success r.status)) [
    | inl good ↦ both_shas-IsPair config _ shas (rw good at e)
    | inr bad ↦ cc (rw bad at e)
  ]

  get_pr_head_commit-IsPair :
      (config : GitHubConfig) (n : ℕ)
      → Yields IsPair (Github.get_pr_head_commit X head_sha config n)
  unfolding Github.get_pr_head_commit
  get_pr_head_commit-IsPair config n =
      Yields-bind {S = World X.E} _ _
        λ r. record { at = λ s shas e. commit_of-IsPair config r shas e }

  module _ (config : ProxyConfig) where
    deploy_existing-Launched :
        (n : ℕ) (hash short : Text) (w : World X.E)
        → short ≡ Github.short_sha hash
        → Launched n (shared w) (Server.deploy_existing X head_sha config n hash short w)
    unfolding Server.deploy_existing create_deploying_instance insert_instance broadcast
        new_deploying
    deploy_existing-Launched n hash short w is_short =
        launched (new_deploying n hash short (image_tag n short))
          (record { number = refl; short = is_short; begins = inl refl }) refl refl

    queue_build-Launched :
        (jenkins : JenkinsConfig) (n : ℕ) (hash short : Text) (w : World X.E)
        → short ≡ Github.short_sha hash
        → Launched n (shared w) (Server.queue_build X head_sha config jenkins n hash short w)
    unfolding Server.queue_build create_building_instance insert_instance broadcast outside
        new_building
    queue_build-Launched jenkins n hash short w is_short =
        elim (Quiet-cases _ (trigger_build-Quiet jenkins n short) w) [
          | inl (url, e, p) ↦ rw p (
              launched (new_building (X.now e).0 n hash short url)
                (record { number = refl; short = is_short; begins = inr (_, _, refl) }) refl refl)
          | inr (m, e, p) ↦ rw p (refused m refl refl)
        ]

    launch_commit-Launched :
        (jenkins : JenkinsConfig) (n : ℕ) (hash short : Text) (w : World X.E)
        → short ≡ Github.short_sha hash
        → Launched n (shared w) (Server.launch_commit X head_sha config jenkins n (hash, short) w)
    unfolding Server.launch_commit Server.build_new broadcast
    launch_commit-Launched jenkins n hash short w is_short =
        elim (Quiet-cases _ (exists_with_commit-Quiet n short) w) [
          | inl (true, e, p) ↦ rw p (deploy_existing-Launched n hash short _ is_short)
          | inl (false, e, p) ↦ rw p (queue_build-Launched jenkins n hash short _ is_short)
          | inr (m, e, p) ↦ rw p (refused m refl refl)
        ]

    pub fetch_commit-Launched :
        (github : GitHubConfig) (jenkins : JenkinsConfig) (n : ℕ) (w : World X.E)
        → Launched n (shared w) (Server.fetch_commit X head_sha config github jenkins n w)
    unfolding Server.fetch_commit
    fetch_commit-Launched github jenkins n w =
        elim (Quiet-cases _ (get_pr_head_commit-Quiet github n) w) [
          | inl ((hash, short), e, p) ↦ rw p (
              launch_commit-Launched jenkins n hash short _ (
                (get_pr_head_commit-IsPair github n).at w (hash, short)
                  (ap (λ (r : Result (Text × Text) × World X.E). r.0) p)))
          | inr (m, e, p) ↦ rw p (refused m refl refl)
        ]
