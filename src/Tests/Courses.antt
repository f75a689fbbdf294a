-- ===== src/Tests/Courses.antt =====
-- Two starts and a handling side by side, on concrete inputs.
use steel_proxy.Common.{ℕ, nat_eq, text_eq, text_beq, ◌≡◌, refl, ok, List, [], ◌∷◌, codes}
use steel_proxy.Common.Map.{contains_key}
use steel_proxy.World.{World}
use steel_proxy.K8s.Lifecycle.{handle_instance}
use steel_proxy.Proxy.Server
use steel_proxy.System.Courses.{
  Course, IsCalm, begins, comes_to_end, handles, ends, goes_on, Course-IsCalm,
}
use steel_proxy.Tests.{world_outside, head_sha, proxy_config, github, jenkins, kubernetes}
use steel_proxy.Tests.K8s.{world, world-IsValid, pr_7, found_7}

abbrev State : Type 0
State = World ℕ × List ℕ

world-IsCalm : IsCalm (world_outside 1) head_sha proxy_config github jenkins kubernetes (world, [])
world-IsCalm = record { valid = world-IsValid; free = λ n waits. cc }

abbrev handled_world : World ℕ
handled_world = (handle_instance (world_outside 1) jenkins kubernetes 7 pr_7 world).1

abbrev started_world : World ℕ
started_world =
    (Server.launch (world_outside 1) head_sha proxy_config github jenkins 8 handled_world).1

free_8 : (Server.check_free (world_outside 1) head_sha proxy_config 8 world).0 ≡ ok tt
unfolding Server.check_free steel_proxy.K8s.Instances.has_instance contains_key
    steel_proxy.Proxy.Backends.contains text_beq codes steel_proxy.K8s.Instances.backend_name
free_8 = refl

-- PR 7 is handled while the start of PR 8 waits.
course :
    Course
      (world_outside 1)
      head_sha
      proxy_config
      github
      jenkins
      kubernetes
      (world, [])
      (started_world, [])
course =
    goes_on (world, []) (world, 8 ∷ []) (started_world, []) (begins 8 world [] free_8 refl)
      (goes_on (world, 8 ∷ []) (handled_world, 8 ∷ []) (started_world, [])
        (handles 7 pr_7 world (8 ∷ []) found_7)
        (goes_on (handled_world, 8 ∷ []) (started_world, []) (started_world, [])
          (comes_to_end 8 handled_world (8 ∷ []) refl) (ends (started_world, []))))

Course-IsCalm_example :
    IsCalm (world_outside 1) head_sha proxy_config github jenkins kubernetes (started_world, [])
Course-IsCalm_example =
    Course-IsCalm (world_outside 1) head_sha proxy_config github jenkins kubernetes (world, [])
      (started_world, []) course world-IsCalm
