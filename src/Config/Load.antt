-- ===== src/Config/Load.antt =====
-- src/config.rs: `ProxyConfig::load` and `create_default`. A `Raw` record is what the `toml`
-- package finds in a file, before serde puts the defaults in for absent keys.
use steel_proxy.Common.{
  Bool, ℕ, Option, none, some, Text, text_eq, codes, Result, ok, err, panic, [], ◌++◌,
  if◌then◌else◌, not, context,
}
use steel_proxy.Common.Map.{HashMap, insert, contains_key, is_empty}
use steel_proxy.Config.Types.{
  BackendServer, ResourceLimits, KubernetesConfig, JenkinsConfig, GitHubConfig, ProxyConfig,
  default_node_address, default_database_path, default_bind_address, default_bind_port,
  default_public_address, default_online_mode, default_instance_timeout, default_image_name,
  default_memory_limit, default_cpu_limit, default_build_timeout, default_resources,
}

pub record RawResources : Type 0 where
  pub memory : Option Text
  pub cpu : Option Text

pub record RawKubernetes : Type 0 where
  pub namespace : Text
  pub registry : Text
  pub instance_timeout_minutes : Option ℕ
  pub image_name : Option Text
  pub resources : Option RawResources
  pub node_address : Option Text

pub record RawJenkins : Type 0 where
  pub url : Text
  pub job_name : Text
  pub username : Text
  pub api_token : Text
  pub build_timeout_minutes : Option ℕ

pub record RawConfig : Type 0 where
  pub bind_address : Option Text
  pub bind_port : Option ℕ
  pub public_address : Option Text
  pub online_mode : Option Bool
  pub database_path : Option Text
  pub default_server : Text
  pub backends : HashMap Text BackendServer
  pub kubernetes : Option RawKubernetes
  pub jenkins : Option RawJenkins
  pub github : Option GitHubConfig

abbrev or_default {ℓ} : {A : Type ℓ} → Option A → A → A
or_default none d = d
or_default (some a) d = a

abbrev pub map_option {ℓ κ} : {A : Type ℓ} {B : Type κ} → (A → B) → Option A → Option B
map_option f none = none
map_option f (some a) = some (f a)

unfoldable pub resources_of : RawResources → ResourceLimits
resources_of r = record {
  memory = or_default r.memory default_memory_limit;
  cpu = or_default r.cpu default_cpu_limit;
}

unfoldable pub kubernetes_of : RawKubernetes → KubernetesConfig
kubernetes_of r = record {
  namespace = r.namespace;
  registry = r.registry;
  instance_timeout_minutes = or_default r.instance_timeout_minutes default_instance_timeout;
  image_name = or_default r.image_name default_image_name;
  resources = or_default (map_option resources_of r.resources) default_resources;
  node_address = or_default r.node_address default_node_address;
}

unfoldable pub jenkins_of : RawJenkins → JenkinsConfig
jenkins_of r = record {
  url = r.url;
  job_name = r.job_name;
  username = r.username;
  api_token = r.api_token;
  build_timeout_minutes = or_default r.build_timeout_minutes default_build_timeout;
}

unfoldable pub config_of : RawConfig → ProxyConfig
config_of r = record {
  bind_address = or_default r.bind_address default_bind_address;
  bind_port = or_default r.bind_port default_bind_port;
  public_address = or_default r.public_address default_public_address;
  online_mode = or_default r.online_mode default_online_mode;
  database_path = or_default r.database_path default_database_path;
  default_server = r.default_server;
  backends = r.backends;
  kubernetes = map_option kubernetes_of r.kubernetes;
  jenkins = map_option jenkins_of r.jenkins;
  github = r.github;
}

-- The checks of `load` on a configuration that was parsed.
unfoldable pub validate : ProxyConfig → Result ProxyConfig
validate config =
    if is_empty config.backends
    then err (codes "No backend servers configured")
    else if not (contains_key config.default_server config.backends)
    then err
        (codes "Default server '" ++ (config.default_server ++ codes "' not found in backends"))
    else ok config

-- What `load` and `create_default` take from the file system and from the `toml` package.
pub record Files : Type 1 where
  pub Disk : Type 0
  pub read_to_string : Text → Disk → Result Text
  pub write : Text → Text → Disk → Result Disk
  pub toml_from_str : Text → Result RawConfig
  pub toml_to_string : ProxyConfig → Result Text

abbrev pub and_then {ℓ κ} : {A : Type ℓ} {B : Type κ} → Result A → (A → Result B) → Result B
and_then (ok a) f = f a
and_then (err e) f = err e
and_then panic f = panic

module _ (F : Files) where
  unfoldable pub load : Text → F.Disk → Result ProxyConfig
  unfolding validate config_of
  load path disk =
      and_then (context (codes "Failed to read config file: " ++ path) (F.read_to_string path disk))
        λ content.
          and_then (context (codes "Failed to parse config file") (F.toml_from_str content))
            λ raw. validate (config_of raw)

abbrev local_backend : ℕ → Text → BackendServer
local_backend port description = record {
  address = codes "127.0.0.1";
  port = port;
  description = some description;
}

-- The configuration that `create_default` writes.
unfoldable pub default_config : ProxyConfig
default_config = record {
  bind_address = default_bind_address;
  bind_port = default_bind_port;
  public_address = default_public_address;
  online_mode = default_online_mode;
  database_path = default_database_path;
  default_server = codes "lobby";
  backends =
      insert (codes "survival") (local_backend 25567 (codes "Survival server"))
        (insert (codes "lobby") (local_backend 25566 (codes "Lobby server")) []);
  kubernetes = none;
  jenkins = none;
  github = none;
}

module _ (F : Files) where
  unfoldable pub create_default : Text → F.Disk → Result F.Disk
  unfolding default_config
  create_default path disk =
      and_then (F.toml_to_string default_config) λ toml. F.write path toml disk
