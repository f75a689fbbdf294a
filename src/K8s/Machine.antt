-- ===== src/K8s/Machine.antt =====
-- The life of a PR instance as a state machine, and what each of its steps does to the table of
-- instances and to the backends: the specification of src/k8s/lifecycle.rs.
use steel_proxy.Common.{ℕ, ◌<◌, ◌≤◌, ◌-◌, Text, Option, []}
use steel_proxy.World.{World}
use steel_proxy.K8s.Instance.{
  InstanceState, building, deploying, starting, ready, shutting_down, failed,
}
use steel_proxy.K8s.Instances.{
  image_tag, update_instance_state, remove_instance, register_backend, unregister_backend,
}
use steel_proxy.K8s.Manager.{resource_name, from_secs}
use steel_proxy.K8s.Lifecycle.{startup_timeout}
use steel_proxy.Config.Types.{JenkinsConfig}
use steel_proxy.Jenkins.{build_timeout_secs}

pub data Outcome : Type 0 where
  stays : Outcome
  goes : InstanceState → Outcome
  gone : Outcome

-- What may become of an instance in one round, by its state.
pub data Edge (n : ℕ) (short : Text) : InstanceState → Outcome → Type 0 where
  build_runs : (t : ℕ) (url : Option Text) → Edge n short (building t url) stays
  build_done :
      (t : ℕ) (url : Option Text)
      → Edge n short (building t url) (goes (deploying (image_tag n short)))
  build_fails :
      (t : ℕ) (url : Option Text) (reason : Text)
      → Edge n short (building t url) (goes (failed reason))
  deployed :
      (tag address : Text) (port t : ℕ)
      → Edge n short (deploying tag) (goes (starting (resource_name n) address port t))
  deploy_fails : (tag reason : Text) → Edge n short (deploying tag) (goes (failed reason))
  pod_starts : (d a : Text) (port t : ℕ) → Edge n short (starting d a port t) stays
  pod_ready :
      (d a : Text) (port t since until : ℕ)
      → Edge n short (starting d a port t) (goes (ready d a port since until))
  pod_timeout :
      (d a : Text) (port t : ℕ) → Edge n short (starting d a port t) (goes (shutting_down d))
  serves : (d a : Text) (port since until : ℕ) → Edge n short (ready d a port since until) stays
  expires :
      (d a : Text) (port since until : ℕ)
      → Edge n short (ready d a port since until) (goes (shutting_down d))
  cleaned : (d : Text) → Edge n short (shutting_down d) gone
  dropped : (reason : Text) → Edge n short (failed reason) gone

-- The states that a clock ends, once it shows `now`; the others end with the next round.
abbrev pub Overdue : JenkinsConfig → InstanceState → ℕ → Type 0
Overdue jenkins (building t url) now = from_secs (build_timeout_secs jenkins) < now - t
Overdue jenkins (deploying tag) now = Unit
Overdue jenkins (starting d a port t) now = startup_timeout < now - t
Overdue jenkins (ready d a port since until) now = until ≤ now
Overdue jenkins (shutting_down d) now = Unit
Overdue jenkins (failed reason) now = Unit

-- The part of the state that the tasks of the proxy share and that the machine is about.
abbrev pub shared : {E : Type 0} → World E → World (Unit {0})
shared w = record {
  backends = w.backends;
  next_client_id = w.next_client_id;
  pending_switches = w.pending_switches;
  broadcasts = [];
  instances = w.instances;
  builds = record { rows = [] };
  ext = tt;
}

-- A backend is added with the state `ready` and removed with its end.
unfoldable pub enter : ℕ → InstanceState → World (Unit {0}) → World (Unit {0})
enter n (ready d a port since until) w =
    update_instance_state n (ready d a port since until) (register_backend n a port w)
enter n (building t url) w = update_instance_state n (building t url) w
enter n (deploying tag) w = update_instance_state n (deploying tag) w
enter n (starting d a port t) w = update_instance_state n (starting d a port t) w
enter n (shutting_down d) w = update_instance_state n (shutting_down d) w
enter n (failed reason) w = update_instance_state n (failed reason) w

unfoldable pub leave : ℕ → InstanceState → World (Unit {0}) → World (Unit {0})
leave n (ready d a port since until) w = unregister_backend n w
leave n (building t url) w = w
leave n (deploying tag) w = w
leave n (starting d a port t) w = w
leave n (shutting_down d) w = w
leave n (failed reason) w = w

unfoldable pub settle : ℕ → InstanceState → Outcome → World (Unit {0}) → World (Unit {0})
unfolding enter leave
settle n s stays w = w
settle n s (goes s') w = enter n s' (leave n s w)
settle n s gone w = remove_instance n w
