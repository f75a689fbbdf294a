-- ===== src/Proxy/Commands.antt =====
-- src/proxy/packet_forwarder.rs: the commands that the proxy answers itself.
use steel_proxy.Common.{
  ℕ, Bool, true, false, Option, none, some, Text, text_eq, codes, show, parse_u32, trim,
  strip_prefix, List, [], ◌∷◌, ◌++◌, if◌then◌else◌, ◌==◌,
}
use steel_proxy.Common.Exec.{Exec, pure, lift, gets, modify, try_catch, ◌>>=◌, ◌>>◌}
use steel_proxy.Config.Types.{ProxyConfig, BackendServer, KubernetesConfig}
use steel_proxy.External.{External, Reply, to_result}
use steel_proxy.World.{World}
use steel_proxy.Packets
use steel_proxy.Packets.{CTransfer, transfer_id, write_transfer}
use steel_proxy.Proxy.Backends.{entries, contains}
use steel_proxy.Proxy.Server.{start_pr, set_target_server}
use steel_proxy.Proxy.Wire.{Wire, transfer, play}
use steel_proxy.Proxy.Session.{S, send_client, in_world}
use steel_proxy.Proxy.Forward.{send_system_message}
use steel_proxy.K8s.Instance.{
  InstanceState, building, deploying, starting, ready, shutting_down, failed,
}
use steel_proxy.K8s.Instances.{backend_name, get_instance_state}

-- `Action`
pub data Action : Type 0 where
  continue disconnect : Action

-- The chain of tests in `handle_client_packet`, with the trimmed argument.
pub data ChatCommand : Type 0 where
  list : ChatCommand
  server start status : Text → ChatCommand
  other : ChatCommand

abbrev prefixed : (Text → ChatCommand) → Option Text → ChatCommand → ChatCommand
prefixed c none otherwise = otherwise
prefixed c (some rest) otherwise = c (trim rest)

unfoldable pub classify : Text → ChatCommand
classify command =
    if command == codes "server"
    then list
    else prefixed server (strip_prefix (codes "server ") command) (
        prefixed start (strip_prefix (codes "start ") command)
          (prefixed status (strip_prefix (codes "status ") command) other))

abbrev text_or_empty : Option Text → Text
text_or_empty none = []
text_or_empty (some t) = t

-- One line of the list of servers.
unfoldable pub server_line : Text → Text → BackendServer → Text
server_line current_backend name backend =
    let current = if name == current_backend then codes " (current)" else [] in
    let desc = text_or_empty backend.description in
    if desc == []
    then codes "\n  - " ++ (name ++ current)
    else codes "\n  - " ++ (name ++ (codes ": " ++ (desc ++ current)))

unfoldable pub server_lines : Text → List (Text × BackendServer) → Text
unfolding server_line
server_lines current_backend [] = []
server_lines current_backend ((name, backend) ∷ rest) =
    server_line current_backend name backend ++ server_lines current_backend rest

-- The answers of `/status`.
unfoldable pub status_message : ℕ → InstanceState → Text
status_message n (building t url) = codes "§e[Status] PR #" ++ (show n ++ codes " is building...")
status_message n (deploying tag) = codes "§e[Status] PR #" ++ (show n ++ codes " is deploying...")
status_message n (starting d a port t) =
    codes "§e[Status] PR #" ++ (show n ++ codes " is starting...")
status_message n (ready d a port since until) =
    codes "§a[Status] PR #"
    ++ (show n ++ (codes " is ready! Use §e/server pr-" ++ (show n ++ codes "§a to connect.")))
status_message n (shutting_down d) =
    codes "§c[Status] PR #" ++ (show n ++ codes " is shutting down...")
status_message n (failed reason) =
    codes "§c[Status] PR #" ++ (show n ++ (codes " failed: " ++ reason))

unfoldable pub running_message : ℕ → Bool → Text
running_message n true =
    codes "§a[Status] PR #"
    ++ (show n ++ (codes " is running. Use §e/server pr-" ++ (show n ++ codes "§a to connect.")))
running_message n false =
    codes "§7[Status] PR #"
    ++ (show n ++ (codes " is not running. Use §e/start " ++ (show n ++ codes "§7 to start it.")))

module _ (X : External) (head_sha : X.Json → Reply Text) (config : ProxyConfig)
    (wire : Wire X.E) where
  unfoldable pub list_servers : Exec (S wire) (Unit {0})
  list_servers = do
    lines ← gets (λ s. server_lines s.current_backend (entries s.world.backends))
    send_system_message wire (codes "Available servers:" ++ lines)

  abbrev pub on_world : (World X.E → World X.E) → S wire → S wire
  on_world f s = record s { world = f s.world }

  -- The Transfer packet to the proxy's own public address.
  unfoldable pub send_transfer : Exec (S wire) (Unit {0})
  send_transfer = do
    let p = Packets.new config.public_address config.bind_port
    body ← lift (to_result (write_transfer wire p))
    send_client wire none (transfer (transfer_id wire.ids play) body play)

  unfoldable pub switch_server : Text → Exec (S wire) Action
  switch_server server_name = do
    exists ← gets (λ s. contains s.world.backends server_name)
    if exists
        then (do
          uuid ← gets (λ s. s.player_uuid)
          modify (on_world (set_target_server uuid server_name))
          send_transfer
          pure disconnect)
        else (do send_system_message wire (codes "Unknown server: " ++ server_name); pure continue)

  unfoldable pub start_number : Option ℕ → Exec (S wire) (Unit {0})
  start_number none = send_system_message wire (codes "§cUsage: /start <pr_number>")
  start_number (some n) =
      try_catch (in_world (start_pr X head_sha config n)) (λ (u : Unit {0}). pure tt)
        λ e.
          send_system_message wire (codes "§cFailed to start PR #" ++ (show n ++ (codes ": " ++ e)))

  unfoldable pub handle_start_command : Text → Exec (S wire) (Unit {0})
  unfolding start_number
  handle_start_command pr_arg = start_number (parse_u32 pr_arg)

  -- What `/status` answers about a PR.
  abbrev status_of : ℕ → Option InstanceState → World X.E → Text
  status_of n (some state) w = status_message n state
  status_of n none w = running_message n (contains w.backends (backend_name n))

  abbrev status_text : ℕ → Option KubernetesConfig → World X.E → Text
  status_text n none w = codes "§cKubernetes not configured"
  status_text n (some k) w = status_of n (get_instance_state n w) w

  unfoldable pub status_number : Option ℕ → Exec (S wire) (Unit {0})
  status_number none = send_system_message wire (codes "§cUsage: /status <pr_number>")
  status_number (some n) = do
    message ← gets (λ s. status_text n config.kubernetes s.world)
    send_system_message wire message

  unfoldable pub handle_status_command : Text → Exec (S wire) (Unit {0})
  unfolding status_number
  handle_status_command pr_arg = status_number (parse_u32 pr_arg)
