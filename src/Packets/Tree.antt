-- ===== src/Packets/Tree.antt =====
-- src/packets.rs: `build_commands`, over the constructors of steel-protocol's command nodes.
use steel_proxy.Common.{ℕ, Text, codes, List, [], ◌∷◌}

-- The types and functions of steel_protocol that build a command tree.
pub record CommandApi (Commands : Type 0) : Type 1 where
  pub Node : Type 0
  pub Info : Type 0
  pub new_root : Node
  pub set_children : List ℕ → Node → Node
  pub info_new : List ℕ → Info
  pub new_executable : Info
  pub chain : Info → Info → Info
  pub new_literal : Info → Text → Node
  -- an argument of type String with behaviour SingleWord, and of type Integer with no bounds
  pub word_argument : Info → Text → Node
  pub integer_argument : Info → Text → Node
  -- CCommands { nodes, root_index }
  pub commands : List Node → ℕ → Commands

module _ {Commands : Type 0} (api : CommandApi Commands) where
  unfoldable pub command_nodes : List api.Node
  command_nodes =
      api.set_children (1 ∷ 3 ∷ 5 ∷ []) api.new_root
      ∷ api.new_literal (api.chain (api.info_new (2 ∷ [])) api.new_executable) (codes "server")
      ∷ api.word_argument api.new_executable (codes "server_name")
      ∷ api.new_literal (api.info_new (4 ∷ [])) (codes "start")
      ∷ api.integer_argument api.new_executable (codes "pr_number")
      ∷ api.new_literal (api.info_new (6 ∷ [])) (codes "status")
      ∷ api.integer_argument api.new_executable (codes "pr_number")
      ∷ []

  unfoldable pub build_commands : Commands
  unfolding command_nodes
  build_commands = api.commands command_nodes 0
