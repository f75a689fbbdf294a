-- ===== src/Tests/Builds.antt =====
-- A build of src/k8s/ that succeeds, on a concrete input.
use steel_proxy.Common.{ℕ, nat_eq, codes, ◌≡◌, refl, none, some, true, ok, [], ◌∷◌, arith}
use steel_proxy.Common.Map.{lookup}
use steel_proxy.External.{External}
use steel_proxy.World.{World}
use steel_proxy.Jenkins
use steel_proxy.Jenkins.{success}
use steel_proxy.K8s.Instance.{PrInstance, building}
use steel_proxy.K8s.Instances.{image_tag}
use steel_proxy.K8s.Lifecycle.{handle_instance}
use steel_proxy.K8s.Manager
use steel_proxy.K8s.Comes.{IsServed, started}
use steel_proxy.K8s.Builds.{built, building-IsServed}
use steel_proxy.Tests.{world_outside, jenkins, kubernetes}
use steel_proxy.Tests.K8s.{world, pr_7}

-- Every text in an answer of Jenkins is "SUCCESS", also the URL of the build.
abbrev builder : External
builder = record (world_outside 1) {
  json_get = λ k j. some j;
  as_str = λ j. some (codes "SUCCESS");
}

abbrev queued_7 : PrInstance
queued_7 = record pr_7 { state = building 50 (some (codes "http://ci/queue/1/")) }

abbrev queued_world : World ℕ
queued_world = record world { instances = (7, queued_7) ∷ [] }

abbrev built_world : World ℕ
built_world = record (handle_instance builder jenkins kubernetes 7 queued_7 queued_world).1 {
  ext = 100;
}

abbrev up_world : World ℕ
up_world = record (handle_instance builder jenkins kubernetes 7 (built 7 queued_7) built_world).1 {
  ext = 2000000101;
}

queued_found : lookup 7 queued_world.instances ≡ some queued_7
unfolding lookup
queued_found = refl

item_left :
    Jenkins.get_build_url builder jenkins
      (codes "http://ci/queue/1/")
      (record queued_world { ext = 101 })
    ≡ (ok (some (codes "SUCCESS")), record queued_world { ext = 101 })
unfolding Jenkins.get_build_url steel_proxy.World.outside_context Jenkins.build_url_of
item_left = refl

succeeded :
    Jenkins.get_build_status builder jenkins (codes "SUCCESS") (record queued_world { ext = 101 })
    ≡ (ok success, record queued_world { ext = 101 })
unfolding Jenkins.get_build_status steel_proxy.World.outside_context Jenkins.build_status_of
    Jenkins.status_of_json steel_proxy.Common.text_beq codes
succeeded = refl

made :
    Manager.create_deployment builder kubernetes 7 (image_tag 7 (codes "fedcba9")) built_world
    ≡ (ok (Manager.resource_name 7), record built_world { ext = 2000000100 })
unfolding Manager.create_deployment Manager.client Manager.wait_after_delete
    steel_proxy.World.outside_context steel_proxy.World.outside
made = refl

exposed :
    Manager.create_service builder kubernetes 7 (record built_world { ext = 2000000100 })
    ≡ (ok (codes "10.0.0.1", 30001), record built_world { ext = 2000000100 })
unfolding Manager.create_service Manager.client steel_proxy.World.outside_context
    steel_proxy.World.outside Manager.first_node_port
exposed = refl

available :
    Manager.is_deployment_ready builder kubernetes
      (Manager.resource_name 7)
      (record up_world { ext = 2000000102 })
    ≡ (ok true, record up_world { ext = 2000000102 })
unfolding Manager.is_deployment_ready Manager.client steel_proxy.World.outside_context
    steel_proxy.World.outside Manager.has_available
available = refl

abbrev started_7 : PrInstance
started_7 =
    started builder jenkins kubernetes (built 7 queued_7) (Manager.resource_name 7)
      (codes "10.0.0.1") 30001 2000000100

building-IsServed_example :
    (lookup 7 built_world.instances ≡ some (built 7 queued_7))
    × (lookup 7 up_world.instances ≡ some started_7)
    × IsServed 7
        (Manager.resource_name 7)
        (codes "10.0.0.1")
        30001
        (built 7 queued_7)
        (handle_instance builder jenkins kubernetes 7 started_7 up_world).1
unfolding Jenkins.build_timeout_secs
building-IsServed_example =
    building-IsServed builder jenkins kubernetes 7 queued_7 queued_world built_world up_world 50
      (codes "http://ci/queue/1/") (codes "SUCCESS") (Manager.resource_name 7) (codes "10.0.0.1")
      30001 101 101 2000000100 2000000100 2000000102 queued_found refl (omega arith) item_left
      succeeded refl made exposed refl (omega arith) available
