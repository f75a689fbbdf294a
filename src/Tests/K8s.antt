-- ===== src/Tests/K8s.antt =====
-- The instances of src/k8s/ on concrete inputs.
use steel_proxy.Common.{
  ℕ, ◌⊎◌, ◌≤◌, ◌<◌, nat_eq, err, Text, codes, ◌≡◌, refl, Bool, true, false, arith, Option, none,
  some, List, [], ◌∷◌, Result, ok, if◌then◌else◌,
}
use steel_proxy.Common.Map.{lookup, UniqueKeys}
use steel_proxy.External.{External, other_error}
use steel_proxy.World.{World}
use steel_proxy.Db.Table.{PrBuild}
use steel_proxy.K8s.Instance.{deploying, PrInstance}
use steel_proxy.K8s.Instances.{remove_instance}
use steel_proxy.K8s.Lifecycle.{handle_instance, handle_deploying, lifecycle_round}
use steel_proxy.K8s.Machine.{Overdue, shared}
use steel_proxy.K8s.Manager
use steel_proxy.K8s.Recovery.{pr_number_of, recover_build, recover_from_db, recovered_instance}
use steel_proxy.K8s.Follows.{Follows}
use steel_proxy.K8s.Follows.Rounds.{handle_instance-Follows}
use steel_proxy.K8s.Progress.{
  moves_left, service_failed, handle_instance-progress, deployment_left_behind,
}
use steel_proxy.K8s.Rounds.{IsValid, RoundDone, lifecycle_round-RoundDone}
use steel_proxy.K8s.Revived.{AnyOf, recover_from_db-AnyOf}
use steel_proxy.Db.Table
use steel_proxy.K8s.Recovered.{recover_from_db-IsValid}
use steel_proxy.Tests.{world_outside, world_with, jenkins, kubernetes, lobby}

abbrev build : PrBuild
build = record {
  id = 1;
  pr_number = 9;
  commit_hash = codes "0123456789abcdef";
  commit_hash_short = codes "0123456";
  image_tag = codes "pr-9-0123456";
  state = codes "Ready";
  state_data = none;
  created_at = [];
  updated_at = [];
}

abbrev pub pr_7 : PrInstance
pr_7 = record {
  pr_number = 7;
  commit_hash = codes "fedcba9876543210";
  commit_hash_short = codes "fedcba9";
  state = deploying (codes "pr-7-fedcba9");
}

-- PR 7 is being deployed, PR 9 is in the database.
abbrev pub world : World ℕ
world = record {
  backends = record { static_backends = (codes "lobby", lobby) ∷ []; dynamic_backends = [] };
  next_client_id = 0;
  pending_switches = [];
  broadcasts = [];
  instances = (7, pr_7) ∷ [];
  builds = record { rows = build ∷ [] };
  ext = 100;
}

one-UniqueKeys : UniqueKeys world.instances
unfolding steel_proxy.Common.Map.contains_key
one-UniqueKeys = (refl, tt)

pub world-IsValid : IsValid world
unfolding steel_proxy.Common.Map.lookup
world-IsValid = record {
  unique = one-UniqueKeys;
  consistent = record { backed = λ j. ground arith };
}

handle_instance-Follows_example :
    Follows
      (Overdue jenkins pr_7.state 100)
      7
      (codes "fedcba9")
      pr_7.state
      (shared world)
      (handle_instance (world_outside 1) jenkins kubernetes 7 pr_7 world)
handle_instance-Follows_example =
    handle_instance-Follows (world_outside 1) jenkins kubernetes 7 pr_7 world

lifecycle_round-RoundDone_example :
    RoundDone
      (world_outside 1)
      jenkins
      kubernetes
      world.instances
      world
      (lifecycle_round (world_outside 1) jenkins kubernetes world)
lifecycle_round-RoundDone_example =
    lifecycle_round-RoundDone (world_outside 1) jenkins kubernetes world world-IsValid

recover_from_db-IsValid_example : IsValid (recover_from_db (world_outside 1) kubernetes world).1
recover_from_db-IsValid_example =
    recover_from_db-IsValid (world_outside 1) kubernetes world world-IsValid

-- PR 9 is in the database, and its deployment is available.
abbrev revived_9 : PrInstance
revived_9 = recovered_instance 9 build (codes "10.0.0.1") 30001 101 1800000000100

found_9 : lookup 9 (recover_from_db (world_outside 1) kubernetes world).1.instances ≡ some revived_9
unfolding lookup recover_from_db steel_proxy.Db.Queries.get_active_builds steel_proxy.World.query
    steel_proxy.K8s.Recovery.recover_builds Table.get_active_builds steel_proxy.Common.text_beq
    codes recover_build Manager.is_deployment_ready Manager.client steel_proxy.World.outside_context
    steel_proxy.World.outside steel_proxy.K8s.Recovery.if_ready Manager.has_available
    Manager.get_service_info steel_proxy.K8s.Recovery.with_service Manager.first_node_port
    steel_proxy.K8s.Instances.register_backend steel_proxy.Common.Map.insert
    steel_proxy.K8s.Instances.insert_instance steel_proxy.K8s.Lifecycle.shutdown_time pr_number_of
    Manager.resource_name
found_9 = refl

recover_from_db-AnyOf_example :
    (lookup 9 world.instances ≡ some revived_9)
    ⊎ AnyOf (world_outside 1) kubernetes 9 revived_9 (Table.get_active_builds world.builds)
recover_from_db-AnyOf_example =
    recover_from_db-AnyOf (world_outside 1) kubernetes 9 revived_9 world found_9

pub found_7 : lookup 7 world.instances ≡ some pr_7
unfolding steel_proxy.Common.Map.lookup
found_7 = refl

handle_instance-progress_example :
    (moves_left
        (lookup 7 (handle_instance (world_outside 1) jenkins kubernetes 7 pr_7 world).1.instances)
      ≤ moves_left (some pr_7))
    × (Overdue jenkins pr_7.state 100
        → moves_left (
            lookup 7
              (handle_instance (world_outside 1) jenkins kubernetes 7 pr_7 world).1.instances)
          < moves_left (some pr_7))
handle_instance-progress_example =
    handle_instance-progress (world_outside 1) jenkins kubernetes 7 pr_7 world found_7

-- A world that creates deployments and no services.
abbrev no_services : External
no_services = world_with 1 (other_error (codes "quota"))

-- The world after the deployment was created: the old one was deleted, and the code waited.
abbrev deployed_world : World ℕ
deployed_world = record world { ext = 2000000100 }

deployment_made :
    Manager.create_deployment no_services kubernetes 7 (codes "pr-7-fedcba9") world
    ≡ (ok (Manager.resource_name 7), deployed_world)
unfolding Manager.create_deployment Manager.client Manager.wait_after_delete
    steel_proxy.World.outside_context steel_proxy.World.outside
deployment_made = refl

service_refused :
    Manager.create_service no_services kubernetes 7 deployed_world
    ≡ (err (codes "Failed to create service"), deployed_world)
unfolding Manager.create_service Manager.client steel_proxy.World.outside_context
    steel_proxy.World.outside
service_refused = refl

deployment_left_behind_example :
    (lookup 7
        (handle_deploying no_services jenkins kubernetes 7 (codes "pr-7-fedcba9") world).1.instances
      ≡ some
          (service_failed no_services jenkins kubernetes pr_7 (codes "Failed to create service")))
    × (handle_instance no_services jenkins kubernetes 7
          (service_failed no_services jenkins kubernetes pr_7 (codes "Failed to create service"))
          (handle_deploying no_services jenkins kubernetes 7 (codes "pr-7-fedcba9") world).1
        ≡ (
          ok tt,
          remove_instance 7
              (handle_deploying no_services jenkins kubernetes 7 (codes "pr-7-fedcba9") world).1,
        ))
    × ((handle_deploying no_services jenkins kubernetes 7 (codes "pr-7-fedcba9") world).1.ext
        ≡ 2000000100)
deployment_left_behind_example =
    deployment_left_behind no_services jenkins kubernetes 7 (codes "pr-7-fedcba9")
      (Manager.resource_name 7) (codes "Failed to create service") pr_7 world deployed_world
      deployed_world deployment_made service_refused found_7
