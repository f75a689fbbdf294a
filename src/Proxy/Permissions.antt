-- ===== src/Proxy/Permissions.antt =====
-- The permission level that a session learns from the backend (src/proxy/packet_forwarder.rs).
use steel_proxy.Common.{
  ℕ, ◌≤◌, Text, ◌≡◌, refl, ◌∙◌, Bool-cases, Option, none, some, List, [], ◌∷◌, Result, ok, err,
  panic, inl, inr, arith, nat_beq,
}
use steel_proxy.Config.Types.{ProxyConfig}
use steel_proxy.External.{External, Reply, answer, refusal}
use steel_proxy.Packets.Tree.{CommandApi}
use steel_proxy.Proxy.Wire.{Wire, RawPacket}
use steel_proxy.Proxy.Session.{S}
use steel_proxy.Proxy.Forward
use steel_proxy.Proxy.Handlers
use steel_proxy.Proxy.Commands.{
  ChatCommand, Action, continue, disconnect, list, server, start, status, other, classify,
}
use steel_proxy.Proxy.Loop
use steel_proxy.Proxy.Loop.{
  Event, from_backend, from_client, from_broadcast, timer, all_closed, elsewhere,
}
use steel_proxy.Proxy.Intercepts.{Leaves-run_command, Leaves-send_system_message}
use steel_proxy.Common.Exec.{modify}
use steel_proxy.Proxy.Frames.{
  Leaves, leaves_rules, Leaves-send_client, Leaves-send_backend, IsInner,
}

module _ (X : External) (head_sha : X.Json → Reply Text) (cfg : ProxyConfig) (wire : Wire X.E)
    (api : CommandApi wire.Commands) where
  see_event-level :
      (e : Option (ℕ × ℕ)) (s : S wire)
      → s.permission_level ≤ 4
      → (Handlers.see_event X head_sha cfg wire api e s).permission_level ≤ 4
  see_event-level none s h = h
  see_event-level (some (id, b)) s h = ground arith

  see_login-level :
      (e : Option ℕ) (s : S wire)
      → (Handlers.see_login X head_sha cfg wire api e s).permission_level ≡ s.permission_level
  see_login-level none s = refl
  see_login-level (some id) s = refl

  observe-level :
      (p : RawPacket) (s : S wire)
      → s.permission_level ≤ 4
      → (Handlers.observe X head_sha cfg wire api p s).permission_level ≤ 4
  unfolding Handlers.observe
  observe-level p s h = elim (Bool-cases (nat_beq p.id wire.ids.play_login)) [
    | inl login ↦ rw (login, see_login-level (Handlers.login_entity p.payload) s) h
    | inr apart ↦ elim (Bool-cases (nat_beq p.id wire.ids.entity_event)) [
      | inl event ↦ rw (apart, event) (see_event-level (Handlers.entity_event p.payload) s h)
      | inr neither ↦ rw (apart, neither) h
    ]
  ]

  abbrev level : S wire → ℕ
  level s = s.permission_level

  level-IsInner : IsInner wire level
  level-IsInner = record {
    private_part = record { world_apart = λ s w. refl; client_apart = λ s p. refl };
    backend_apart = λ s p. refl;
    protocol_apart = λ s c. refl;
  }

  Leaves-follow :
      (p : RawPacket) → Leaves level (modify (Handlers.follow_protocol X head_sha cfg wire api p))
  unfolding Handlers.follow_protocol
  Leaves-follow p = record {
    at = λ s. elim (Bool-cases (nat_beq p.id wire.ids.finish_configuration)) [
      | inl last ↦ rw last refl
      | inr not_last ↦ rw not_last refl
    ];
  }

  Leaves-forward_to_backend : (p : RawPacket) → Leaves level (Forward.forward_to_backend wire p)
  unfolding Forward.forward_to_backend
  Leaves-forward_to_backend p =
      search (leaves_rules, Leaves-send_backend wire level-IsInner) depth 8

  Leaves-pass_on : (p : RawPacket) → Leaves level (Handlers.pass_on X head_sha cfg wire api p)
  unfolding Handlers.pass_on
  Leaves-pass_on p = search (leaves_rules, Leaves-follow, Leaves-forward_to_backend) depth 8

  Leaves-any_command :
      (p : RawPacket) (c : ChatCommand)
      → Leaves level (Handlers.run_command X head_sha cfg wire api p c)
  unfolding Handlers.run_command
  Leaves-any_command p other = Leaves-pass_on p
  Leaves-any_command p list =
      Leaves-run_command X head_sha cfg wire level-IsInner.private_part api p list (λ e. cc)
  Leaves-any_command p (server t) =
      Leaves-run_command X head_sha cfg wire level-IsInner.private_part api p (server t) (λ e. cc)
  Leaves-any_command p (start t) =
      Leaves-run_command X head_sha cfg wire level-IsInner.private_part api p (start t) (λ e. cc)
  Leaves-any_command p (status t) =
      Leaves-run_command X head_sha cfg wire level-IsInner.private_part api p (status t) (λ e. cc)

  Leaves-on_command :
      (p : RawPacket) (r : Result Text)
      → Leaves level (Handlers.on_command X head_sha cfg wire api p r)
  unfolding Handlers.on_command
  Leaves-on_command p (ok command) = Leaves-any_command p (classify command)
  Leaves-on_command p (err e) = Leaves-pass_on p
  Leaves-on_command p panic = record { at = λ s. refl }

  Leaves-handle_client :
      (p : RawPacket) → Leaves level (Handlers.handle_client_packet X head_sha cfg wire api p)
  unfolding Handlers.handle_client_packet
  Leaves-handle_client p = search (leaves_rules, Leaves-pass_on, Leaves-on_command) depth 8

  Leaves-forward_to_client : (p : RawPacket) → Leaves level (Forward.forward_to_client wire p)
  unfolding Forward.forward_to_client
  Leaves-forward_to_client p =
      search (leaves_rules, Leaves-send_client wire level-IsInner.private_part) depth 8

  Leaves-send_commands : Leaves level (Forward.send_commands_packet wire api)
  unfolding Forward.send_commands_packet
  Leaves-send_commands = Leaves-send_client wire level-IsInner.private_part _ _

  handle_backend-level :
      (p : RawPacket) (s : S wire)
      → s.permission_level ≤ 4
      → (Handlers.handle_backend_packet X head_sha cfg wire api p s).1.permission_level ≤ 4
  unfolding Handlers.handle_backend_packet
  handle_backend-level p s h = elim (Bool-cases (Handlers.is_play s.current_protocol)) [
    | inl in_play ↦ elim (Bool-cases (Handlers.is_commands X head_sha cfg wire api p)) [
      | inl replaced ↦ rw (in_play, replaced, Leaves-send_commands.at) (observe-level p s h)
      | inr sent ↦ rw (in_play, sent, (Leaves-forward_to_client p).at) (observe-level p s h)
    ]
    | inr before ↦ rw (before, (Leaves-forward_to_client p).at) h
  ]

  -- Forwarding while the session ends leaves the level.
  drain-level :
      (events : List (Event X.E)) (s : S wire)
      → (Loop.drain_until_client_disconnects X head_sha cfg wire api events s).1.permission_level
        ≡ s.permission_level
  unfolding Loop.drain_until_client_disconnects
  drain-level [] s = refl
  drain-level (from_backend (answer p) ∷ events) s =
      drain-level events (Forward.forward_to_client wire p s).1 ∙ (Leaves-forward_to_client p).at s
  drain-level (from_backend (refusal e) ∷ events) s = drain-level events s
  drain-level (from_client (answer p) ∷ events) s = drain-level events s
  drain-level (from_client (refusal e) ∷ events) s = refl
  drain-level (from_broadcast r ∷ events) s = drain-level events s
  drain-level (timer ∷ events) s = refl
  drain-level (all_closed ∷ events) s = drain-level events s
  drain-level (elsewhere f ∷ events) s =
      drain-level events (Loop.on_world X head_sha cfg wire api f s)

  after_backend-level :
      (r : Result (Unit {0})) (s : S wire) (rest : S wire → Loop.Ended × S wire)
      → s.permission_level ≤ 4
      → ((t : S wire) → t.permission_level ≤ 4 → (rest t).1.permission_level ≤ 4)
      → (Loop.after_backend X head_sha cfg wire api r s rest).1.permission_level ≤ 4
  after_backend-level (ok u) s rest h k = k s h
  after_backend-level (err e) s rest h k = h
  after_backend-level panic s rest h k = h

  after_client-level :
      (r : Result Action) (s : S wire) (rest : S wire → Loop.Ended × S wire)
      → (events : List (Event X.E)) → s.permission_level ≤ 4
      → ((t : S wire) → t.permission_level ≤ 4 → (rest t).1.permission_level ≤ 4)
      → (Loop.after_client X head_sha cfg wire api r s rest events).1.permission_level ≤ 4
  after_client-level (ok continue) s rest events h k = k s h
  after_client-level (ok disconnect) s rest events h k = rw drain-level h
  after_client-level (err e) s rest events h k = h
  after_client-level panic s rest events h k = h

  -- Whatever the two sides send, in any order and with any failures, the permission level of a
  -- session that starts within 0 to 4 stays within 0 to 4.
  pub run-permission_level :
      (events : List (Event X.E)) (s : S wire)
      → s.permission_level ≤ 4
      → (Loop.run X head_sha cfg wire api events s).1.permission_level ≤ 4
  unfolding Loop.run
  run-permission_level [] s h = h
  run-permission_level (from_backend (answer p) ∷ events) s h =
      after_backend-level _ _ _ (handle_backend-level p s h) (run-permission_level events)
  run-permission_level (from_backend (refusal e) ∷ events) s h = h
  run-permission_level (from_client (answer p) ∷ events) s h =
      after_client-level _ (Handlers.handle_client_packet X head_sha cfg wire api p s).1 _ events
        (rw ((Leaves-handle_client p).at) h) (run-permission_level events)
  run-permission_level (from_client (refusal e) ∷ events) s h = h
  run-permission_level (from_broadcast (answer m) ∷ events) s h =
      run-permission_level events (Forward.send_system_message wire m s).1
        (rw ((Leaves-send_system_message X head_sha cfg wire level-IsInner.private_part m).at) h)
  run-permission_level (from_broadcast (refusal e) ∷ events) s h = run-permission_level events s h
  run-permission_level (timer ∷ events) s h = run-permission_level events s h
  run-permission_level (all_closed ∷ events) s h = h
  run-permission_level (elsewhere f ∷ events) s h =
      run-permission_level events (Loop.on_world X head_sha cfg wire api f s) h
