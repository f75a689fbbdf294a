-- ===== src/Tests.antt =====
-- The development on concrete inputs: a world outside, a wire, configurations and sessions.
pub mod Config
pub mod K8s
pub mod Login
pub mod Proxy
pub mod System
pub mod Courses
pub mod Relay
pub mod Departures
pub mod Visits
pub mod Lives
pub mod Builds
use steel_proxy.Common.{ℕ, ◌+◌, Text, codes, Option, none, some, List, [], ◌∷◌, true, text_eq}
use steel_proxy.Common.Map.{insert}
use steel_proxy.Config.Types.{
  BackendServer, KubernetesConfig, JenkinsConfig, GitHubConfig, ProxyConfig, default_resources,
}
use steel_proxy.External.{External, Reply, answer, KubeReply, done, Response, Deployment, Service}
use steel_proxy.Proxy.Wire.{Wire, PacketIds, Packet}
use steel_proxy.Packets.Tree.{CommandApi}

abbrev response : Response (Unit {0})
response = record {
  status = 200;
  location = some (codes "http://ci/queue/1/");
  body = answer [];
  json = answer tt;
}

abbrev deployment : ℕ → Deployment
deployment replicas = record { status = some (record { available_replicas = some replicas }) }

abbrev service : Service
service = record { spec = some (record { ports = some (record { node_port = some 30001 } ∷ []) }) }

-- The state of the world is its clock; every call succeeds, but for the creation of a service.
abbrev pub world_with : (replicas : ℕ) → KubeReply Service → External
world_with replicas service_reply = record {
  E = ℕ;
  now = λ e. (e, e + 1);
  sleep = λ d e. e + d;
  kube_client = λ e. (answer tt, e);
  decode_deployment = λ m. answer tt;
  decode_service = λ m. answer tt;
  delete_deployment = λ ns n e. (done tt, e);
  create_deployment = λ ns m e. (done tt, e);
  get_deployment = λ ns n e. (done (deployment replicas), e);
  delete_service = λ ns n e. (done tt, e);
  create_service = λ ns m e. (service_reply, e);
  get_service = λ ns n e. (done service, e);
  Json = Unit {0};
  http_get = λ r e. (answer response, e);
  http_post = λ r e. (answer response, e);
  status_display = λ status. [];
  json_get = λ k j. none;
  as_bool = λ j. none;
  as_str = λ j. none;
  query_error = λ e. (none, e);
  datetime = λ e. (codes "2026-01-01 00:00:00", e);
  next_rowid = λ e. (1, e);
}

abbrev pub world_outside : (replicas : ℕ) → External
world_outside replicas = world_with replicas (done service)

abbrev pub head_sha : Unit {0} → Reply Text
head_sha json = answer (codes "0123456789abcdef")

abbrev pub kubernetes : KubernetesConfig
kubernetes = record {
  namespace = codes "steel";
  registry = codes "registry:5000";
  instance_timeout_minutes = 30;
  image_name = codes "steel-server";
  resources = default_resources;
  node_address = codes "10.0.0.1";
}

abbrev pub jenkins : JenkinsConfig
jenkins = record {
  url = codes "http://ci";
  job_name = codes "steel";
  username = codes "proxy";
  api_token = codes "secret";
  build_timeout_minutes = 15;
}

abbrev pub github : GitHubConfig
github = record { owner = codes "teknostom"; repo = codes "steel"; token = none }

abbrev pub lobby : BackendServer
lobby = record { address = codes "127.0.0.1"; port = 25566; description = none }

abbrev pub proxy_config : ProxyConfig
proxy_config = record {
  bind_address = codes "0.0.0.0";
  bind_port = 25565;
  public_address = codes "localhost";
  online_mode = true;
  database_path = codes "steel-proxy.db";
  default_server = codes "lobby";
  backends = (codes "lobby", lobby) ∷ [];
  kubernetes = some kubernetes;
  jenkins = some jenkins;
  github = some github;
}

abbrev pub ids : PacketIds
ids = record {
  handshake_intention = 0;
  status_request = 0;
  status_ping_request = 1;
  login_hello = 0;
  login_acknowledged = 3;
  login_compression = 3;
  login_finished = 2;
  finish_configuration = 3;
  config_transfer = 11;
  chat_command = 5;
  chat_command_signed = 6;
  play_login = 48;
  entity_event = 34;
  play_commands = 16;
  play_transfer = 122;
}

abbrev one_byte : List ℕ → Reply (ℕ × List ℕ)
one_byte [] = Reply.refusal (codes "eof")
one_byte (b ∷ rest) = answer (b, rest)

-- A VarInt of one byte; a frame is the packet itself.
abbrev pub wire : Wire ℕ
wire = record {
  ids = ids;
  write_varint = λ n. answer (n ∷ []);
  read_varint = one_byte;
  Commands = Unit {0};
  Frame = Packet (Unit {0});
  encode = answer;
  write_client = λ p e. (answer tt, e);
  write_backend = λ p e. (answer tt, e);
}

abbrev pub command_api : CommandApi (Unit {0})
command_api = record {
  Node = Unit {0};
  Info = Unit {0};
  new_root = tt;
  set_children = λ c n. n;
  info_new = λ c. tt;
  new_executable = tt;
  chain = λ a b. tt;
  new_literal = λ i t. tt;
  word_argument = λ i t. tt;
  integer_argument = λ i t. tt;
  commands = λ nodes root. tt;
}
