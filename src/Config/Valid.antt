-- ===== src/Config/Valid.antt =====
-- Configurations that `ProxyConfig::load` of src/config.rs returns, and the one that
-- `create_default` writes.
use steel_proxy.Common.{
  Text, text_eq, ◌≡◌, refl, sym, subst, ap, ◌∙◌, Bool, true, false, Bool-cases, inl, inr, not,
  is_some, Option, none, some, Result, ok, err, panic, if◌then◌else◌, context, codes, arith, [],
  ◌++◌, ◌∷◌,
}
use steel_proxy.Common.Map.{contains_key, contains_key-lookup, HashMap, lookup, is_empty, insert}
use steel_proxy.Config.Types.{
  ProxyConfig, KubernetesConfig, JenkinsConfig, BackendServer, ResourceLimits,
}
use steel_proxy.Config.Load
use steel_proxy.Config.Load.{
  Files, RawConfig, RawKubernetes, RawJenkins, RawResources, load, create_default, default_config,
  config_of,
}
use steel_proxy.Proxy.Backends
use steel_proxy.Proxy.Backends.{get}

-- The default server is one of the backends.
abbrev pub HasDefault : ProxyConfig → Type 0
HasDefault c = contains_key c.default_server c.backends ≡ true

and_then-ok :
    {A B : Type 0} (r : Result A) (f : A → Result B) {b : B}
    → Load.and_then r f ≡ ok b
    → (a : A) × (r ≡ ok a) × (f a ≡ ok b)
and_then-ok (ok a) f h = (a, refl, h)
and_then-ok (err e) f h = absurd cc
and_then-ok panic f h = absurd cc

checked :
    (empty there : Bool) (e m : Text) {c d : ProxyConfig}
    → (if empty then err e else if not there then err m else ok c) ≡ ok d
    → (there ≡ true) × (c ≡ d)
checked true there e m h = absurd cc
checked false false e m h = absurd cc
checked false true e m h = (refl, cc)

validate-HasDefault : (c d : ProxyConfig) → Load.validate c ≡ ok d → HasDefault d
unfolding Load.validate
validate-HasDefault c d h =
    go (checked (is_empty c.backends) (contains_key c.default_server c.backends) _ _ h)
  where
    go : (contains_key c.default_server c.backends ≡ true) × (c ≡ d) → HasDefault d
    go (there, same) = subst HasDefault same there

abbrev raw_resources : ResourceLimits → RawResources
raw_resources r = record { memory = some r.memory; cpu = some r.cpu }

abbrev raw_kubernetes : KubernetesConfig → RawKubernetes
raw_kubernetes k = record {
  namespace = k.namespace;
  registry = k.registry;
  instance_timeout_minutes = some k.instance_timeout_minutes;
  image_name = some k.image_name;
  resources = some (raw_resources k.resources);
  node_address = some k.node_address;
}

abbrev raw_jenkins : JenkinsConfig → RawJenkins
raw_jenkins j = record {
  url = j.url;
  job_name = j.job_name;
  username = j.username;
  api_token = j.api_token;
  build_timeout_minutes = some j.build_timeout_minutes;
}

-- A file with a key for each field of a configuration, and none for an absent option.
abbrev pub raw_of : ProxyConfig → RawConfig
raw_of c = record {
  bind_address = some c.bind_address;
  bind_port = some c.bind_port;
  public_address = some c.public_address;
  online_mode = some c.online_mode;
  database_path = some c.database_path;
  default_server = c.default_server;
  backends = c.backends;
  kubernetes = Load.map_option raw_kubernetes c.kubernetes;
  jenkins = Load.map_option raw_jenkins c.jenkins;
  github = c.github;
}

config_of-raw_of : (c : ProxyConfig) → config_of (raw_of c) ≡ c
unfolding config_of Load.kubernetes_of Load.resources_of Load.jenkins_of
config_of-raw_of c = parts c.kubernetes c.jenkins
  where
    parts :
        (k : Option KubernetesConfig) (j : Option JenkinsConfig)
        → config_of (raw_of (record c { kubernetes = k; jenkins = j }))
          ≡ record c { kubernetes = k; jenkins = j }
    parts none none = refl
    parts none (some j) = refl
    parts (some k) none = refl
    parts (some k) (some j) = refl

not_empty :
    (name : Text) (m : HashMap Text BackendServer) → contains_key name m ≡ true → is_empty m ≡ false
unfolding is_empty contains_key
not_empty name [] h = cc
not_empty name (x ∷ m) h = refl

validate-valid : (c : ProxyConfig) → HasDefault c → Load.validate c ≡ ok c
unfolding Load.validate
validate-valid c h = rw (not_empty c.default_server c.backends h, h) refl

default_config-HasDefault : HasDefault default_config
unfolding default_config insert contains_key codes steel_proxy.Common.text_beq
default_config-HasDefault = refl

module _ (F : Files) where
  -- If a configuration is loaded, then the registry that the proxy makes of its backends finds the
  -- default server.
  pub load-default_server :
      (path : Text) (disk : F.Disk) (c : ProxyConfig)
      → load F path disk ≡ ok c
      → is_some (get (Backends.new c.backends) c.default_server) ≡ true
  unfolding load get Backends.new lookup
  load-default_server path disk c h = go (and_then-ok _ _ h)
    where
      found : HasDefault c → is_some (lookup c.default_server c.backends) ≡ true
      found there = sym (contains_key-lookup c.default_server c.backends) ∙ there

      go :
          (content : Text) × (context
                (codes "Failed to read config file: " ++ path)
                (F.read_to_string path disk)
              ≡ ok content)
            × (Load.and_then
                  (context (codes "Failed to parse config file") (F.toml_from_str content))
                  (λ raw. Load.validate (config_of raw))
                ≡ ok c)
          → is_some (lookup c.default_server c.backends) ≡ true
      go (content, read, parsed) =
          let (raw, e, valid) =
            and_then-ok (context (codes "Failed to parse config file") (F.toml_from_str content))
              (λ r. Load.validate (config_of r)) parsed in
          found (validate-HasDefault (config_of raw) c valid)

  -- A file that has a key for each field of a configuration, in the main table and in those of
  -- Kubernetes, its resources and Jenkins, is loaded as that configuration, field by field, if the
  -- default server is one of its backends.
  pub load-raw_of :
      (c : ProxyConfig) (path content : Text) (disk : F.Disk)
      → F.read_to_string path disk ≡ ok content
      → F.toml_from_str content ≡ ok (raw_of c)
      → HasDefault c
      → load F path disk ≡ ok c
  unfolding load
  load-raw_of c path content disk read parsed there =
      rw (read, parsed) (ap Load.validate (config_of-raw_of c) ∙ validate-valid c there)

  -- `load` gives back the configuration that `create_default` wrote, if the file system gives back
  -- what was written last, and `toml` reads in what it printed a key for each field.
  pub load-create_default :
      (path toml : Text) (disk disk' : F.Disk)
      → F.toml_to_string default_config ≡ ok toml
      → F.toml_from_str toml ≡ ok (raw_of default_config)
      → F.write path toml disk ≡ ok disk'
      → F.read_to_string path disk' ≡ ok toml
      → (create_default F path disk ≡ ok disk') × (load F path disk' ≡ ok default_config)
  unfolding create_default
  load-create_default path toml disk disk' printed read written back = (
    rw (printed, written) refl,
    load-raw_of default_config path toml disk' back read default_config-HasDefault,
  )
