-- ===== src/K8s/Instance.antt =====
-- src/k8s/instance.rs. An `Instant` is the number of nanoseconds since some start.
use steel_proxy.Common.{ℕ, Text, codes, show, Option, some, ◌++◌}

pub data InstanceState : Type 0 where
  building : (started_at : ℕ) → (build_url : Option Text) → InstanceState
  deploying : (image_tag : Text) → InstanceState
  starting : (deployment_name address : Text) → (port : ℕ) → (started_at : ℕ) → InstanceState
  ready : (deployment_name address : Text) → (port : ℕ) → (ready_at shutdown_at : ℕ) → InstanceState
  shutting_down : (deployment_name : Text) → InstanceState
  failed : (reason : Text) → InstanceState

unfoldable pub status_text : InstanceState → Text
status_text (building _ _) = codes "building"
status_text (deploying _) = codes "deploying"
status_text (starting _ _ _ _) = codes "starting"
status_text (ready _ _ _ _ _) = codes "ready"
status_text (shutting_down _) = codes "shutting down"
status_text (failed _) = codes "failed"

pub record PrInstance : Type 0 where
  pub pr_number : ℕ  -- u32
  pub commit_hash : Text
  pub commit_hash_short : Text
  pub state : InstanceState

-- The argument `now` is what `Instant::now()` returns.
unfoldable pub new_building : ℕ → ℕ → Text → Text → Text → PrInstance
new_building now pr_number commit_hash commit_hash_short queue_url = record {
  pr_number = pr_number;
  commit_hash = commit_hash;
  commit_hash_short = commit_hash_short;
  state = building now (some queue_url);
}

unfoldable pub new_deploying : ℕ → Text → Text → Text → PrInstance
new_deploying pr_number commit_hash commit_hash_short image_tag = record {
  pr_number = pr_number;
  commit_hash = commit_hash;
  commit_hash_short = commit_hash_short;
  state = deploying image_tag;
}

-- "{registry}/{image_name}:pr-{pr_number}-{commit_hash_short}"
unfoldable pub image_tag : PrInstance → Text → Text → Text
image_tag i registry image_name =
    registry
    ++ (codes "/"
        ++ (image_name
            ++ (codes ":pr-" ++ (show i.pr_number ++ (codes "-" ++ i.commit_hash_short)))))
