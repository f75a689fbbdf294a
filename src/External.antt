-- ===== src/External.antt =====
-- What the program takes from outside its own code: the clock, the Kubernetes API (kube), HTTP
-- (reqwest, serde_json), SQLite's answers (sqlx). `E` is the state of all of it; no operation is
-- assumed to have any property here.
use steel_proxy.Common.{ℕ, Text, Option, List, Bool, Result, ok, err}

-- A value or the text of an error. Code outside does not panic.
pub data Reply {ℓ} (A : Type ℓ) : Type ℓ where
  answer : A → Reply A
  refusal : Text → Reply A

abbrev pub to_result {ℓ} : {A : Type ℓ} → Reply A → Result A
to_result (answer a) = ok a
to_result (refusal e) = err e

-- What an API call of `kube` answers; `api_error code display`, and any other error.
pub data KubeReply {ℓ} (A : Type ℓ) : Type ℓ where
  done : A → KubeReply A
  api_error : ℕ → Text → KubeReply A
  other_error : Text → KubeReply A

-- The parts of the Deployment manifest that depend on the call; the others are literals of the
-- source. `labels` is the `app` and the `pr` label.
pub record DeploymentManifest : Type 0 where
  pub name : Text
  pub namespace : Text
  pub label_app : Text
  pub label_pr : Text
  pub replicas : ℕ
  pub image : Text
  pub container_port : ℕ
  pub memory : Text
  pub cpu : Text

pub record ServiceManifest : Type 0 where
  pub name : Text
  pub namespace : Text
  pub selector_app : Text
  pub selector_pr : Text
  pub port : ℕ
  pub target_port : ℕ
  pub service_type : Text

-- The fields of the API's objects that the program reads. An `i32` is its bit pattern.
pub record ServicePort : Type 0 where
  pub node_port : Option ℕ

pub record ServiceSpec : Type 0 where
  pub ports : Option (List ServicePort)

pub record Service : Type 0 where
  pub spec : Option ServiceSpec

pub record DeploymentStatus : Type 0 where
  pub available_replicas : Option ℕ

pub record Deployment : Type 0 where
  pub status : Option DeploymentStatus

-- A request's parts that the program sets, and the parts of a response that it reads.
pub record Request : Type 0 where
  pub url : Text
  pub headers : List (Text × Text)
  pub basic_auth : Option (Text × Text)
  pub form : List (Text × Text)

pub record Response (Json : Type 0) : Type 0 where
  pub status : ℕ
  pub location : Option Text  -- the `Location` header, if it is a string
  pub body : Reply Text
  pub json : Reply Json

pub record External : Type 1 where
  pub E : Type 0
  -- Instant::now(), in nanoseconds
  pub now : E → ℕ × E
  -- tokio::time::sleep, in nanoseconds
  pub sleep : ℕ → E → E
  -- the OnceCell over Client::try_default
  pub kube_client : E → Reply (Unit {0}) × E
  -- serde_json::from_value on the two manifests
  pub decode_deployment : DeploymentManifest → Reply (Unit {0})
  pub decode_service : ServiceManifest → Reply (Unit {0})
  -- Api<Deployment> and Api<Service>: namespace, then name or manifest
  pub delete_deployment : Text → Text → E → KubeReply (Unit {0}) × E
  pub create_deployment : Text → DeploymentManifest → E → KubeReply (Unit {0}) × E
  pub get_deployment : Text → Text → E → KubeReply Deployment × E
  pub delete_service : Text → Text → E → KubeReply (Unit {0}) × E
  pub create_service : Text → ServiceManifest → E → KubeReply Service × E
  pub get_service : Text → Text → E → KubeReply Service × E
  -- reqwest and serde_json
  pub Json : Type 0
  pub http_get : Request → E → Reply (Response Json) × E
  pub http_post : Request → E → Reply (Response Json) × E
  pub status_display : ℕ → Text
  pub json_get : Text → Json → Option Json
  pub as_bool : Json → Option Bool
  pub as_str : Json → Option Text
  -- SQLite: the error of the next statement, if it fails, datetime('now'), and a new row's id
  pub query_error : E → Option Text × E
  pub datetime : E → Text × E
  pub next_rowid : E → ℕ × E
