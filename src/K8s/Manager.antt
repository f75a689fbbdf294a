-- ===== src/K8s/Manager.antt =====
-- src/k8s/mod.rs: the calls of the Kubernetes API. A PR's deployment and its service have one
-- name.
use steel_proxy.Common.{
  ℕ, ◌%◌, ◌*◌, Bool, ◌&&◌, Option, none, some, Text, codes, show, List, [], ◌∷◌, ◌++◌, Result, ok,
  err, context, ltb, nat_beq, if◌then◌else◌,
}
use steel_proxy.Common.Exec.{Exec, pure, lift, ◌>>=◌, ◌>>◌}
use steel_proxy.Config.Types.{KubernetesConfig}
use steel_proxy.External.{
  External, to_result, KubeReply, done, api_error, other_error, DeploymentManifest, ServiceManifest,
  Service, ServiceSpec, ServicePort, Deployment, DeploymentStatus,
}
use steel_proxy.World.{World, outside, outside_context}

-- format!("steel-pr-{}", pr_number)
unfoldable pub resource_name : ℕ → Text
resource_name pr_number = codes "steel-pr-" ++ show pr_number

-- Duration::from_secs, in nanoseconds
abbrev pub from_secs : ℕ → ℕ
from_secs s = s * 1000000000

abbrev pub kube_result {ℓ} : {A : Type ℓ} → KubeReply A → Result A
kube_result (done a) = ok a
kube_result (api_error code e) = err e
kube_result (other_error e) = err e

-- A deletion that found nothing (404) counts as done.
abbrev pub deleted : KubeReply (Unit {0}) → Result (Unit {0})
deleted (done a) = ok tt
deleted (api_error code e) = if nat_beq code 404 then ok tt else err e
deleted (other_error e) = err e

-- `node_port as u16`, on the first port of the service
abbrev as_u16 : Option ℕ → Option ℕ
as_u16 none = none
as_u16 (some node_port) = some (node_port % 65536)

abbrev first_port : Option (List ServicePort) → Option ℕ
first_port none = none
first_port (some []) = none
first_port (some (p ∷ rest)) = as_u16 p.node_port

abbrev spec_port : Option ServiceSpec → Option ℕ
spec_port none = none
spec_port (some spec) = first_port spec.ports

unfoldable pub first_node_port : Service → Option ℕ
first_node_port svc = spec_port svc.spec

abbrev or_zero : Option ℕ → ℕ
or_zero none = 0
or_zero (some n) = n

abbrev available_replicas : Option DeploymentStatus → ℕ
available_replicas none = 0
available_replicas (some s) = or_zero s.available_replicas

-- `available > 0`, an `i32`
unfoldable pub has_available : Deployment → Bool
has_available d = let n = available_replicas d.status in ltb 0 n && ltb n 2147483648

-- Manifests of a PR's deployment and service.
unfoldable pub deployment_manifest : KubernetesConfig → ℕ → Text → DeploymentManifest
deployment_manifest config pr_number image_tag = record {
  name = resource_name pr_number;
  namespace = config.namespace;
  label_app = codes "steel-server";
  label_pr = show pr_number;
  replicas = 1;
  image = config.registry ++ (codes "/" ++ (config.image_name ++ (codes ":" ++ image_tag)));
  container_port = 25565;
  memory = config.resources.memory;
  cpu = config.resources.cpu;
}

unfoldable pub service_manifest : KubernetesConfig → ℕ → ServiceManifest
service_manifest config pr_number = record {
  name = resource_name pr_number;
  namespace = config.namespace;
  selector_app = codes "steel-server";
  selector_pr = show pr_number;
  port = 25565;
  target_port = 25565;
  service_type = codes "NodePort";
}

module _ (X : External) (config : KubernetesConfig) where
  unfoldable pub client : Exec (World X.E) (Unit {0})
  client =
      outside_context (codes "Failed to create Kubernetes client from kubeconfig") X.kube_client

  -- After a deletion that found something the code waits two seconds; errors are only logged.
  unfoldable pub wait_after_delete : KubeReply (Unit {0}) → Exec (World X.E) (Unit {0})
  wait_after_delete (done a) = outside (λ e. (tt, X.sleep (from_secs 2) e))
  wait_after_delete (api_error code e) = pure tt
  wait_after_delete (other_error e) = pure tt

  unfoldable pub create_deployment : ℕ → Text → Exec (World X.E) Text
  unfolding wait_after_delete
  create_deployment pr_number image_tag = do
    client
    let name = resource_name pr_number
    old ← outside (X.delete_deployment config.namespace name)
    wait_after_delete old
    let manifest = deployment_manifest config pr_number image_tag
    lift (to_result (X.decode_deployment manifest))
    created ← outside (X.create_deployment config.namespace manifest)
    lift (context (codes "Failed to create deployment") (kube_result created))
    pure name

  abbrev pub or_no_node_port : Option ℕ → Result (Text × ℕ)
  or_no_node_port none = err (codes "No NodePort assigned")
  or_no_node_port (some port) = ok (config.node_address, port)

  unfoldable pub create_service : ℕ → Exec (World X.E) (Text × ℕ)
  create_service pr_number = do
    client
    let name = resource_name pr_number
    old ← outside (X.delete_service config.namespace name)
    let manifest = service_manifest config pr_number
    lift (to_result (X.decode_service manifest))
    reply ← outside (X.create_service config.namespace manifest)
    created ← lift (context (codes "Failed to create service") (kube_result reply))
    lift (or_no_node_port (first_node_port created))

  unfoldable pub delete_instance : ℕ → Exec (World X.E) (Unit {0})
  delete_instance pr_number = do
    client
    let name = resource_name pr_number
    deployment ← outside (X.delete_deployment config.namespace name)
    lift (deleted deployment)
    service ← outside (X.delete_service config.namespace name)
    lift (deleted service)

  unfoldable pub is_deployment_ready : Text → Exec (World X.E) Bool
  is_deployment_ready deployment_name = do
    client
    reply ← outside (X.get_deployment config.namespace deployment_name)
    deployment ← lift (context (codes "Failed to get deployment") (kube_result reply))
    pure (has_available deployment)

  abbrev with_node_address : Option ℕ → Option (Text × ℕ)
  with_node_address none = none
  with_node_address (some port) = some (config.node_address, port)

  abbrev pub service_info : KubeReply Service → Result (Option (Text × ℕ))
  service_info (done svc) = ok (with_node_address (first_node_port svc))
  service_info (api_error code e) = if nat_beq code 404 then ok none else err e
  service_info (other_error e) = err e

  unfoldable pub get_service_info : ℕ → Exec (World X.E) (Option (Text × ℕ))
  get_service_info pr_number = do
    client
    reply ← outside (X.get_service config.namespace (resource_name pr_number))
    lift (service_info reply)
