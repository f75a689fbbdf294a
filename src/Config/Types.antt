-- ===== src/Config/Types.antt =====
-- src/config.rs: the configuration records and the default of each field.
use steel_proxy.Common.{ℕ, Bool, true, Option, Text, codes}
use steel_proxy.Common.Map.{HashMap}

pub record BackendServer : Type 0 where
  pub address : Text
  pub port : ℕ  -- u16
  pub description : Option Text

pub record ResourceLimits : Type 0 where
  pub memory : Text
  pub cpu : Text

pub record KubernetesConfig : Type 0 where
  pub namespace : Text
  pub registry : Text
  pub instance_timeout_minutes : ℕ  -- u64
  pub image_name : Text
  pub resources : ResourceLimits
  pub node_address : Text

pub record JenkinsConfig : Type 0 where
  pub url : Text
  pub job_name : Text
  pub username : Text
  pub api_token : Text
  pub build_timeout_minutes : ℕ  -- u64

pub record GitHubConfig : Type 0 where
  pub owner : Text
  pub repo : Text
  pub token : Option Text

pub record ProxyConfig : Type 0 where
  pub bind_address : Text
  pub bind_port : ℕ  -- u16
  pub public_address : Text
  pub online_mode : Bool
  pub database_path : Text
  pub default_server : Text
  pub backends : HashMap Text BackendServer
  pub kubernetes : Option KubernetesConfig
  pub jenkins : Option JenkinsConfig
  pub github : Option GitHubConfig

unfoldable pub default_node_address : Text
default_node_address = codes "127.0.0.1"

unfoldable pub default_database_path : Text
default_database_path = codes "steel-proxy.db"

unfoldable pub default_bind_address : Text
default_bind_address = codes "0.0.0.0"

unfoldable pub default_bind_port : ℕ
default_bind_port = 25565

unfoldable pub default_public_address : Text
default_public_address = codes "localhost"

unfoldable pub default_online_mode : Bool
default_online_mode = true

unfoldable pub default_instance_timeout : ℕ
default_instance_timeout = 30

unfoldable pub default_image_name : Text
default_image_name = codes "steel-server"

unfoldable pub default_memory_limit : Text
default_memory_limit = codes "2Gi"

unfoldable pub default_cpu_limit : Text
default_cpu_limit = codes "1000m"

unfoldable pub default_build_timeout : ℕ
default_build_timeout = 15

-- `impl Default for ResourceLimits`
unfoldable pub default_resources : ResourceLimits
default_resources = record { memory = default_memory_limit; cpu = default_cpu_limit }
