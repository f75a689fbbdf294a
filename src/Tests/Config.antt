-- ===== src/Tests/Config.antt =====
-- The configuration and the database on concrete inputs.
use steel_proxy.Common.{
  ℕ, Text, codes, ◌≡◌, refl, true, is_some, none, some, [], ◌∷◌, ok, nat_eq, text_eq, ◌==◌, ◌&&◌,
}
use steel_proxy.Config.Load.{Files, load, create_default, default_config}
use steel_proxy.Config.Valid.{
  HasDefault, raw_of, load-raw_of, load-default_server, load-create_default,
}
use steel_proxy.Proxy.Backends
use steel_proxy.Proxy.Backends.{get}
use steel_proxy.Db.Table
use steel_proxy.Tests.{proxy_config}
use steel_proxy.Db.Store.{view, put, alter, forget, is_build, ready_commit, table-Store}
use steel_proxy.Db.Rows.{UniqueRows, exists_with_commit-upsert}

-- A disk with one file, whose text is the name of the default configuration.
abbrev pub files : Files
files = record {
  Disk = Text;
  read_to_string = λ path disk. ok disk;
  write = λ path content disk. ok content;
  toml_from_str = λ content. ok (raw_of default_config);
  toml_to_string = λ config. ok (codes "default");
}

-- A disk whose file holds every key of the configuration of the tests.
abbrev full_files : Files
full_files = record files { toml_from_str = λ content. ok (raw_of proxy_config) }

proxy_config-HasDefault : HasDefault proxy_config
unfolding steel_proxy.Common.Map.contains_key codes steel_proxy.Common.text_beq
proxy_config-HasDefault = refl

load-raw_of_example : load full_files (codes "config.toml") (codes "full") ≡ ok proxy_config
load-raw_of_example =
    load-raw_of full_files proxy_config (codes "config.toml") (codes "full") (codes "full") refl
      refl proxy_config-HasDefault

pub default_written :
    (create_default files (codes "config.toml") [] ≡ ok (codes "default"))
    × (load files (codes "config.toml") (codes "default") ≡ ok default_config)
default_written =
    load-create_default files (codes "config.toml") (codes "default") [] (codes "default") refl refl
      refl refl

load-default_server_example :
    is_some (get (Backends.new default_config.backends) default_config.default_server) ≡ true
load-default_server_example =
    load-default_server files (codes "config.toml") (codes "default") default_config
      default_written.1

abbrev values : Table.Values
values = record {
  commit_hash = codes "0123456789abcdef";
  commit_hash_short = codes "0123456";
  image_tag = codes "pr-9-0123456";
  state = codes "Ready";
  state_data = none;
}

abbrev table : Table.Table
table = record { rows = Table.inserted [] 1 8 values ∷ Table.inserted [] 2 9 values ∷ [] }

exists_with_commit-upsert_example :
    Table.exists_with_commit 9 (codes "0123456") (Table.upsert [] 3 9 values table)
    ≡ (values.commit_hash_short == codes "0123456" && values.state == codes "Ready")
exists_with_commit-upsert_example =
    exists_with_commit-upsert [] 3 9 values (codes "0123456") table (refl, (refl, tt))

table-Store_example :
    ((m : ℕ) → view (Table.upsert [] 3 8 values table) m ≡ put [] 3 8 values (view table) m)
    × ((m : ℕ)
        → view (Table.update_state [] 8 (codes "Failed") none table) m
          ≡ alter [] 8 (codes "Failed") none (view table) m)
    × ((m : ℕ) → view (Table.delete 8 table) m ≡ forget 8 (view table) m)
    × (Table.exists_with_commit 8 (codes "0123456") table
        ≡ is_build (codes "0123456") (view table 8))
    × (Table.get_last_ready_commit 8 table ≡ ready_commit (view table 8))
    × UniqueRows (Table.upsert [] 3 8 values table).rows
    × UniqueRows (Table.update_state [] 8 (codes "Failed") none table).rows
    × UniqueRows (Table.delete 8 table).rows
table-Store_example =
    table-Store [] 3 8 values (codes "Failed") (codes "0123456") none table (refl, (refl, tt))
