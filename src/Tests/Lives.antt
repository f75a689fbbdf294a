-- ===== src/Tests/Lives.antt =====
-- The life of an instance of src/k8s/ on concrete inputs.
use steel_proxy.Common.{[], ℕ, nat_eq, ◌≤◌, codes, ◌≡◌, refl, ◌∙◌, true, none, some, ok, arith}
use steel_proxy.Common.Map.{lookup}
use steel_proxy.External.{External, answer}
use steel_proxy.World.{World}
use steel_proxy.K8s.Polling.{forgotten_item-handle_building}
use steel_proxy.K8s.Instance.{PrInstance, shutting_down}
use steel_proxy.K8s.Lifecycle.{handle_instance, handle_building}
use steel_proxy.K8s.Lifecycle
use steel_proxy.K8s.Manager
use steel_proxy.K8s.Consistency.{lookup-update}
use steel_proxy.K8s.Endings.{Handlings, ends, apart, overdue, Handlings-end}
use steel_proxy.K8s.Comes.{IsServed, started, deploying-IsServed}
use steel_proxy.Tests.{world_outside, jenkins, kubernetes}
use steel_proxy.Tests.K8s.{world, pr_7, found_7}

-- The deployment was made, and the service; two seconds have passed.
made :
    Manager.create_deployment (world_outside 1) kubernetes 7 (codes "pr-7-fedcba9") world
    ≡ (ok (Manager.resource_name 7), record world { ext = 2000000100 })
unfolding Manager.create_deployment Manager.client Manager.wait_after_delete
    steel_proxy.World.outside_context steel_proxy.World.outside
made = refl

exposed :
    Manager.create_service (world_outside 1) kubernetes 7 (record world { ext = 2000000100 })
    ≡ (ok (codes "10.0.0.1", 30001), record world { ext = 2000000100 })
unfolding Manager.create_service Manager.client steel_proxy.World.outside_context
    steel_proxy.World.outside Manager.first_node_port
exposed = refl

abbrev deployed_world : World ℕ
deployed_world = (handle_instance (world_outside 1) jenkins kubernetes 7 pr_7 world).1

available :
    Manager.is_deployment_ready
      (world_outside 1)
      kubernetes
      (Manager.resource_name 7)
      (record deployed_world { ext = 2000000102 })
    ≡ (ok true, record deployed_world { ext = 2000000102 })
unfolding Manager.is_deployment_ready Manager.client steel_proxy.World.outside_context
    steel_proxy.World.outside Manager.has_available
available = refl

abbrev started_7 : PrInstance
started_7 =
    started (world_outside 1) jenkins kubernetes pr_7 (Manager.resource_name 7) (codes "10.0.0.1")
      30001 2000000100

pr_7-IsServed :
    (lookup 7 (record deployed_world { ext = 2000000101 }).instances ≡ some started_7)
    × IsServed 7
        (Manager.resource_name 7)
        (codes "10.0.0.1")
        30001
        pr_7
        (handle_instance
          (world_outside 1)
          jenkins
          kubernetes
          7
          started_7
          (record deployed_world { ext = 2000000101 })).1
pr_7-IsServed =
    deploying-IsServed (world_outside 1) jenkins kubernetes 7 pr_7 world
      (record deployed_world { ext = 2000000101 }) (codes "pr-7-fedcba9") (Manager.resource_name 7)
      (codes "10.0.0.1") 30001 2000000100 2000000100 2000000102 found_7 refl made exposed refl
      (omega arith) available

-- Two hours later the pod is not ready, and one round after that it is cleaned up.
abbrev late_world : World ℕ
late_world = record deployed_world { ext = 7202000000100 }

abbrev stopping_world : World ℕ
stopping_world = (handle_instance (world_outside 1) jenkins kubernetes 7 started_7 late_world).1

abbrev stopping_7 : PrInstance
stopping_7 = record pr_7 { state = shutting_down (Manager.resource_name 7) }

there_late : lookup 7 late_world.instances ≡ some started_7
there_late = pr_7-IsServed.0

stopping : lookup 7 stopping_world.instances ≡ some stopping_7
unfolding handle_instance Lifecycle.handle_state Lifecycle.handle_starting Lifecycle.set_instance
    steel_proxy.World.outside steel_proxy.World.broadcast
stopping = lookup-update 7 7 (shutting_down (Manager.resource_name 7)) _ ∙ rw there_late refl

abbrev gone_world : World ℕ
gone_world = (handle_instance (world_outside 1) jenkins kubernetes 7 stopping_7 stopping_world).1

three-Handlings : Handlings (world_outside 1) jenkins kubernetes 7 3 world gone_world
three-Handlings = overdue 2 world gone_world pr_7 found_7 tt (
    apart 2 deployed_world late_world gone_world refl (
      overdue 1 late_world gone_world started_7 there_late (omega arith)
        (overdue 0 stopping_world gone_world stopping_7 stopping tt (ends gone_world))))

abbrev three : ℕ
three = 3

Handlings-end_example : (three ≤ 3) × (three ≡ 3 → lookup 7 gone_world.instances ≡ none)
Handlings-end_example =
    Handlings-end (world_outside 1) jenkins kubernetes 7 three world gone_world three-Handlings

-- Jenkins has forgotten the queue item of PR 7.
abbrev forgetful : External
forgetful = record (world_outside 1) {
  http_get = λ r e.
      (answer (record { status = 404; location = none; body = answer []; json = answer tt }), e);
}

forgotten_item-handle_building_example :
    handle_building forgetful jenkins kubernetes 7
      (codes "fedcba9")
      50
      (some (codes "http://ci/queue/1/"))
      world
    ≡ (ok tt, record world { ext = 101 })
unfolding steel_proxy.Jenkins.build_timeout_secs
forgotten_item-handle_building_example =
    forgotten_item-handle_building forgetful jenkins kubernetes 7 (codes "fedcba9")
      (codes "http://ci/queue/1/") 50 world
      (record { status = 404; location = none; body = answer []; json = answer tt }) 101
      (omega arith) refl refl
