-- ===== src/Tests/Relay.antt =====
-- The forwarder on a wire that works, and two starts at once, on concrete inputs.
use steel_proxy.Common.{
  ℕ, nat_eq, text_eq, text_beq, Text, codes, ◌≡◌, refl, true, false, is_some, none, some, Option,
  List, [], ◌∷◌, ◌++◌, Result, ok, err, arith, inl, inr,
}
use steel_proxy.Common.Map.{lookup, contains_key, lookup-insert}
use steel_proxy.External.{answer}
use steel_proxy.World.{World}
use steel_proxy.K8s.Instance.{PrInstance, ready}
use steel_proxy.K8s.Instances.{insert_instance, register_backend}
use steel_proxy.K8s.Recovered.{ready-IsValid}
use steel_proxy.K8s.Rounds.{IsValid}
use steel_proxy.Proxy.Wire.{play}
use steel_proxy.Proxy.Forward.{parse_command_from_payload}
use steel_proxy.Proxy.Loop.{Event, run, from_client, from_backend, from_broadcast, elsewhere, timer}
use steel_proxy.Proxy.Relay.{Works, IsForeign, for_backend, for_client}
use steel_proxy.Proxy.Relayed.{Relays, run-Relays}
use steel_proxy.Proxy.Races.{IsSplit, late_launch-IsSplit}
use steel_proxy.Proxy.Server.{launch}
use steel_proxy.Tests.{
  world_outside, head_sha, proxy_config, wire, command_api, lobby, jenkins, github,
}
use steel_proxy.Tests.Proxy.{session}

abbrev pub wire-Works : Works wire
wire-Works = record {
  number = λ n. n ∷ [];
  frame = λ p. p;
  numbered = λ n. refl;
  encoded = λ p. refl;
  client_open = λ f e. refl;
  backend_open = λ f e. refl;
}

-- A packet of each side, a command that is not the proxy's own, the backend's tree of commands, a broadcast and another task.
abbrev events : List (Event ℕ)
events =
    from_client (answer (record { id = 7; payload = 1 ∷ 2 ∷ [] }))
    ∷ from_client (answer (record { id = 5; payload = 2 ∷ codes "me" }))
    ∷ from_backend (answer (record { id = 16; payload = 0 ∷ [] }))
    ∷ from_broadcast (answer (codes "hello"))
    ∷ elsewhere (λ w. w)
    ∷ timer
    ∷ from_backend (answer (record { id = 9; payload = 4 ∷ [] }))
    ∷ []

me-IsForeign :
    IsForeign
      (world_outside 1)
      head_sha
      proxy_config
      wire
      command_api
      (parse_command_from_payload wire (2 ∷ codes "me"))
unfolding parse_command_from_payload steel_proxy.Proxy.Forward.read_string
    steel_proxy.Proxy.Forward.as_usize codes steel_proxy.Common.Utf8.from_utf8
    steel_proxy.Proxy.Commands.classify steel_proxy.Common.strip_prefix text_beq
me-IsForeign = refl

run-Relays_example :
    Relays
      (world_outside 1)
      head_sha
      proxy_config
      wire
      command_api
      wire-Works
      (run (world_outside 1) head_sha proxy_config wire command_api events session)
      session
      (for_backend
        (world_outside 1)
        head_sha
        proxy_config
        wire
        command_api
        wire-Works
        (some 256)
        events)
      (for_client (world_outside 1) head_sha proxy_config wire command_api wire-Works play events)
run-Relays_example =
    run-Relays (world_outside 1) head_sha proxy_config wire command_api wire-Works events session
      (inl refl, (inr me-IsForeign, (tt, (tt, (tt, (tt, (tt, tt)))))))

-- PR 7 became ready while a second start of it waited for GitHub.
abbrev pub ready_7 : PrInstance
ready_7 = record {
  pr_number = 7;
  commit_hash = codes "fedcba9876543210";
  commit_hash_short = codes "fedcba9";
  state = ready (codes "steel-pr-7") (codes "10.0.0.1") 30001 50 1800000000050;
}

abbrev empty_world : World ℕ
empty_world = record {
  backends = record { static_backends = (codes "lobby", lobby) ∷ []; dynamic_backends = [] };
  next_client_id = 0;
  pending_switches = [];
  broadcasts = [];
  instances = [];
  builds = record { rows = [] };
  ext = 100;
}

empty-IsValid : IsValid empty_world
unfolding lookup
empty-IsValid = record { unique = tt; consistent = record { backed = λ j. refl } }

abbrev pub ready_world : World ℕ
ready_world = register_backend 7 (codes "10.0.0.1") 30001 (insert_instance 7 ready_7 empty_world)

pub there_7 : lookup 7 ready_world.instances ≡ some ready_7
unfolding register_backend insert_instance lookup steel_proxy.Common.Map.insert
there_7 = refl

second_start_works :
    (launch (world_outside 1) head_sha proxy_config github jenkins 7 ready_world).0 ≡ ok tt
unfolding launch steel_proxy.World.broadcast steel_proxy.Proxy.Server.fetch_commit
    steel_proxy.Github.get_pr_head_commit steel_proxy.World.outside_context
    steel_proxy.Github.commit_of steel_proxy.Proxy.Server.launch_commit
    steel_proxy.Db.Queries.exists_with_commit steel_proxy.World.query
    steel_proxy.Db.Table.exists_with_commit steel_proxy.Db.Table.count_commit
    steel_proxy.Proxy.Server.build_new steel_proxy.Proxy.Server.queue_build
    steel_proxy.Jenkins.trigger_build steel_proxy.Jenkins.queue_url_of
    steel_proxy.K8s.Instances.create_building_instance steel_proxy.World.outside register_backend
    insert_instance
second_start_works = refl

late_launch-IsSplit_example :
    IsSplit
      (world_outside 1)
      head_sha
      proxy_config
      7
      (codes "10.0.0.1")
      30001
      (launch (world_outside 1) head_sha proxy_config github jenkins 7 ready_world).1
late_launch-IsSplit_example =
    late_launch-IsSplit (world_outside 1) head_sha proxy_config github jenkins 7 ready_world ready_7
      (codes "steel-pr-7") (codes "10.0.0.1") 30001 50 1800000000050
      (ready-IsValid 7 (codes "10.0.0.1") 30001 ready_7 empty_world (codes "steel-pr-7") 50
        1800000000050 refl empty-IsValid).consistent
      there_7 refl second_start_works
