-- ===== src/K8s/Polling.antt =====
-- How src/k8s/lifecycle.rs follows a build: it asks Jenkins for the queue item in every round.
use steel_proxy.Common.{ℕ, ◌-◌, ◌≤◌, Text, ◌≡◌, refl, ◌++◌, codes, false, some, ok, arith, ltb}
use steel_proxy.Config.Types.{KubernetesConfig, JenkinsConfig}
use steel_proxy.External.{External, Response, answer}
use steel_proxy.World.{World, outside, outside_context}
use steel_proxy.Jenkins
use steel_proxy.K8s.Manager.{from_secs}
use steel_proxy.K8s.Lifecycle

module _ (X : External) (jenkins : JenkinsConfig) (config : KubernetesConfig) where
  -- While the build's time is not over, if Jenkins answers the question for the queue item with
  -- anything but success, as it does when it has forgotten the item, then a round does nothing
  -- else: it does not ask for the build, and the instance keeps its state.
  pub forgotten_item-handle_building :
      (n : ℕ) (short url : Text) (t : ℕ) (w : World X.E) (r : Response X.Json) (e : X.E)
      → (X.now w.ext).0 - t ≤ from_secs (Jenkins.build_timeout_secs jenkins)
      → X.http_get (Jenkins.get_request X jenkins (url ++ codes "api/json")) (X.now w.ext).1
        ≡ (answer r, e)
      → Jenkins.is_success r.status ≡ false
      → Lifecycle.handle_building X jenkins config n short t (some url) w
        ≡ (ok tt, record w { ext = e })
  unfolding Lifecycle.handle_building Lifecycle.poll_queue Lifecycle.poll_build
      Jenkins.get_build_url Jenkins.build_url_of outside outside_context
  forgotten_item-handle_building n short url t w r e in_time asked forgotten =
      rw (not_late, asked, forgotten) refl
    where
      not_late : ltb (from_secs (Jenkins.build_timeout_secs jenkins)) ((X.now w.ext).0 - t) ≡ false
      not_late = ground arith
