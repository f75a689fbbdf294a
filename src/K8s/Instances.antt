-- ===== src/K8s/Instances.antt =====
-- src/k8s/mod.rs: the table of instances and the registration of backends.
use steel_proxy.Common.{ℕ, Bool, Option, none, some, Text, codes, show, nat_eq, text_eq, List, ◌++◌}
use steel_proxy.Common.Exec.{Exec, modify, ◌>>=◌}
use steel_proxy.Common.Map.{lookup, contains_key, insert, remove}
use steel_proxy.Config.Types.{BackendServer}
use steel_proxy.External.{External}
use steel_proxy.World.{World, outside}
use steel_proxy.Proxy.Backends
use steel_proxy.K8s.Instance.{PrInstance, InstanceState, new_building, new_deploying}

-- format!("pr-{}", pr_number)
unfoldable pub backend_name : ℕ → Text
backend_name pr_number = codes "pr-" ++ show pr_number

-- format!("pr-{}-{}", pr_number, commit_hash_short)
unfoldable pub image_tag : ℕ → Text → Text
image_tag pr_number commit_hash_short =
    codes "pr-" ++ (show pr_number ++ (codes "-" ++ commit_hash_short))

unfoldable pub has_instance : {E : Type 0} → ℕ → World E → Bool
has_instance pr_number w = contains_key pr_number w.instances

abbrev state_of : Option PrInstance → Option InstanceState
state_of none = none
state_of (some i) = some i.state

unfoldable pub get_instance_state : {E : Type 0} → ℕ → World E → Option InstanceState
get_instance_state pr_number w = state_of (lookup pr_number w.instances)

unfoldable pub insert_instance : {E : Type 0} → ℕ → PrInstance → World E → World E
insert_instance pr_number i w = record w { instances = insert pr_number i w.instances }

-- `get_mut`, then an assignment: nothing happens if the instance is gone.
abbrev set_state : {E : Type 0} → ℕ → InstanceState → Option PrInstance → World E → World E
set_state pr_number state none w = w
set_state pr_number state (some i) w = insert_instance pr_number (record i { state = state }) w

unfoldable pub update_instance_state : {E : Type 0} → ℕ → InstanceState → World E → World E
unfolding insert_instance
update_instance_state pr_number state w = set_state pr_number state (lookup pr_number w.instances) w

unfoldable pub remove_instance : {E : Type 0} → ℕ → World E → World E
remove_instance pr_number w = record w { instances = remove pr_number w.instances }

unfoldable pub get_instances_snapshot : {E : Type 0} → World E → List (ℕ × PrInstance)
get_instances_snapshot w = w.instances

unfoldable pub pr_backend : ℕ → Text → ℕ → BackendServer
pr_backend pr_number address port = record {
  address = address;
  port = port;
  description = some (codes "PR #" ++ show pr_number);
}

unfoldable pub register_backend : {E : Type 0} → ℕ → Text → ℕ → World E → World E
register_backend pr_number address port w = record w {
  backends =
      Backends.add_dynamic (backend_name pr_number) (pr_backend pr_number address port) w.backends;
}

unfoldable pub unregister_backend : {E : Type 0} → ℕ → World E → World E
unregister_backend pr_number w = record w {
  backends = (Backends.remove_dynamic (backend_name pr_number) w.backends).1;
}

module _ (X : External) where
  unfoldable pub create_building_instance : ℕ → Text → Text → Text → Exec (World X.E) (Unit {0})
  create_building_instance pr_number commit_hash commit_hash_short queue_url = do
    now ← outside X.now
    modify (
        insert_instance pr_number
          (new_building now pr_number commit_hash commit_hash_short queue_url))

  unfoldable pub create_deploying_instance : ℕ → Text → Text → Exec (World X.E) (Unit {0})
  create_deploying_instance pr_number commit_hash commit_hash_short = modify (
      insert_instance pr_number (
        new_deploying pr_number commit_hash commit_hash_short
          (image_tag pr_number commit_hash_short)))
