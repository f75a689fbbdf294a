-- ===== src/Proxy/Races.antt =====
-- Two starts of one PR at the same time: `start_pr` of src/proxy.rs checks the tables before it
-- waits for GitHub, SQLite and Jenkins, and adds its instance after that.
use steel_proxy.Common.{
  ℕ, nat_eq, Text, text_eq, ◌≡◌, refl, ap, sym, subst, ◌∙◌, some, none, Result, ok, err, eq_self,
}
use steel_proxy.Common.Map.{lookup, lookup-insert}
use steel_proxy.Config.Types.{ProxyConfig, JenkinsConfig, GitHubConfig, BackendServer}
use steel_proxy.External.{External, Reply}
use steel_proxy.World.{World, broadcast}
use steel_proxy.K8s.Instance.{PrInstance, ready}
use steel_proxy.K8s.Instances.{backend_name, insert_instance, pr_backend}
use steel_proxy.K8s.Machine.{shared}
use steel_proxy.K8s.Consistency.{IsConsistent}
use steel_proxy.Proxy.Launch.{IsFresh, Launched, refused, launched, fetch_commit-Launched}
use steel_proxy.Proxy.Server
use steel_proxy.Proxy.Start.{fresh-backend}

ok-err : (r : Result (Unit {0})) (e : Text) → r ≡ ok tt → ¬ (r ≡ err e)
ok-err r e worked failed = cc

module _ (X : External) (head_sha : X.Json → Reply Text) (config : ProxyConfig) where
  insert-inconsistent :
      (n : ℕ) (i : PrInstance) (w : World (Unit {0})) (d a : Text) (port since until : ℕ)
      (old : PrInstance)
      → IsFresh n i
      → lookup n w.instances ≡ some old
      → old.state ≡ ready d a port since until
      → IsConsistent w
      → ¬ IsConsistent (insert_instance n i w)
  unfolding insert_instance
  insert-inconsistent n i w d a port since until old fresh there is_ready h h' =
      none-some (sym dropped ∙ kept)
    where
      none-some : {b : BackendServer} → ¬ (none ≡ some b)
      none-some e = cc

      kept : lookup (backend_name n) w.backends.dynamic_backends ≡ some (pr_backend n a port)
      kept = h.backed n ∙ rw (there, is_ready) refl

      dropped : lookup (backend_name n) w.backends.dynamic_backends ≡ none
      dropped =
          h'.backed n ∙ rw (lookup-insert, eq_self) (fresh-backend X head_sha config n i fresh)

  -- The backend of PR `n` is registered at an address while its instance is a new one, which is
  -- building or deploying.
  pub record IsSplit (n : ℕ) (address : Text) (port : ℕ) (w : World X.E) : Type 0 where
    pub backend_kept :
        lookup (backend_name n) w.backends.dynamic_backends ≡ some (pr_backend n address port)
    pub now : PrInstance
    pub instance_new : lookup n w.instances ≡ some now
    pub fresh : IsFresh n now
    pub disagree : ¬ IsConsistent w

  -- If PR `n` has become ready by the time at which a start of it that had passed its checks comes
  -- to its end, and the start works, then the tables no longer agree: the backend of `n` stays
  -- registered while its instance is a new one, which is building or deploying.
  pub late_launch-IsSplit :
      (github : GitHubConfig) (jenkins : JenkinsConfig) (n : ℕ) (w : World X.E) (old : PrInstance)
      (d a : Text) (port since until : ℕ)
      → IsConsistent w
      → lookup n w.instances ≡ some old
      → old.state ≡ ready d a port since until
      → (Server.launch X head_sha config github jenkins n w).0 ≡ ok tt
      → IsSplit n a port (Server.launch X head_sha config github jenkins n w).1
  unfolding Server.launch broadcast insert_instance
  late_launch-IsSplit github jenkins n w old d a port since until h there is_ready works =
      go (fetch_commit-Launched X head_sha config github jenkins n (broadcast _ w).1)
    where
      run : Result (Unit {0}) × World X.E
      run = Server.launch X head_sha config github jenkins n w

      go : Launched n (shared w) run → IsSplit n a port run.1
      go (refused m failed same) = absurd (ok-err run.0 m works failed)
      go (launched i fresh done same) = record {
        backend_kept =
            ap (λ v. lookup (backend_name n) v.backends.dynamic_backends) same
            ∙ h.backed n
            ∙ rw (there, is_ready) refl;
        now = i;
        instance_new = ap (λ v. lookup n v.instances) same ∙ rw (lookup-insert, eq_self) refl;
        fresh = fresh;
        disagree = λ h'.
            insert-inconsistent n i (shared w) d a port since until old fresh there is_ready
              (record { backed = h.backed })
              (subst IsConsistent same (record { backed = h'.backed }));
      }
