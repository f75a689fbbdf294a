-- ===== src/Lib.antt =====
-- steel-proxy: a proxy for Minecraft servers. It logs players in, connects each to a backend,
-- passes packets both ways, answers a few chat commands itself, and builds, deploys and removes
-- one server for each pull request (PR) that a player starts.
--
-- Parts, and how they interact:
--   Config      src/config.rs: the configuration, its defaults and checks.
--   Proxy       src/proxy.rs and src/proxy/: Backends is the registry of backends, Server the
--               shared server (pending switches, client numbers, `start_pr`); Login is the
--               `ClientHandler` up to the choice of a backend, Connector the `BackendConnector`,
--               Session, Forward, Commands, Handlers, Loop and Readers (the reader tasks) the
--               `PacketForwarder` of one player, and Client puts the three together as
--               `ClientHandler::run` does.
--   Packets     src/packets.rs: the Transfer packet and the tree of commands.
--   K8s         src/k8s/: Instance and Instances are the table of PR instances, Manager the calls
--               of Kubernetes, Lifecycle the loop that moves each instance along, Recovery the
--               instances that a restart finds again.
--   Jenkins, Github, Db    src/jenkins, src/github, src/db: the build server, the head commit of a
--               PR, the table of builds (Table: the statements on rows; Queries: with failures;
--               Init: opening the database).
--   Startup     src/main.rs: from the configuration to the loop that accepts connections.
--   System      the tasks that src/main.rs spawns, together: Steps is the relation of what a task
--               can do to the shared state between two points at which another may run, and each
--               task is a path of such steps (Tasks: recovery and the lifecycle loop; Starts:
--               `start_pr`; Logins, Forwarding, Loops and Clients: a connection). Sound is about
--               all paths, and so about every interleaving of the tasks at these points. Courses
--               puts starts that wait beside the lifecycle loop.
-- A chat command reaches `start_pr`, which asks GitHub for the commit and makes an instance; the
-- lifecycle loop builds and deploys it and registers a backend, to which `/server` leads.
--
-- How state is modelled. World is what the tasks share: backends, instances, pending switches,
-- broadcasts, the table of builds, and the state of everything outside. Code that reads or changes
-- it is an action `Exec S A = S → Result A × S` (Common/Exec), where Result has a value, an error
-- text or a panic. Functions and fields keep the names of the source. Locks are held for single
-- operations, which are steps of the model.
--
-- What is outside (kube, reqwest and serde_json, sqlx and SQLite, the clock) is the record
-- External, and steel-protocol's encoding and sockets the records Wire, LoginWire and Dial
-- (Proxy/Wire, Login and Connector): parameters with no assumed properties. toml and the file
-- system are `Files` (Config/Load), the opening of the database `Storage` (Db/Init). A theorem
-- that needs a property of one of these has it as a hypothesis.
--
-- Texts are lists of code points, an i32 is its bit pattern, an Instant a number of nanoseconds,
-- maps are association lists. u64 products wrap, as in a release build. Every loop is structural
-- recursion: `run` and the drain over a list of events in the order in which `select!` takes them,
-- the login and the negotiation with a backend over the packets that arrive,
-- `lifecycle_round` over the snapshot, recovery over the rows. No fuel is used but in `show` and in
-- UTF-8 decoding, where a successor of the number and the number of bytes are enough.
--
-- Not modelled: logging, the pool of SQLite's connections, the bound of the two channels behind
-- a session's events, the capacity of the broadcast channel (a message that was missed is an
-- event), and the panic of an Instant that is moved beyond its range.
--
-- Proofs: K8s/Machine is the life of an instance as a state machine, K8s/Follows about the
-- handlers and that machine, K8s/Consistency, Rounds and Recovered about the tables of
-- instances and backends, Revived about what recovery adds, K8s/Progress about the moves that
-- are left to an instance, Chances and Endings about how long it lasts, Comes and Builds about
-- how it comes to be served, Polling about following a build; Proxy/Frames, Intercepts,
-- Permissions, Switching, Transparent and Reading are about the forwarder and its commands,
-- Relay, Sends, Passes and Relayed compare it with a proxy that only passes packets on,
-- Readers, Drains and Departures are about the end of a session, Lookups is about the registry,
-- Proxy/Reconnect, Whole, Visits, Named and Negotiation about the login, Proxy/Launch, Start
-- and Races about `start_pr`, Db/Rows, Store and Opened about the table of builds, Config/Valid
-- about loading, Startup/Serves, Reachable, Sound and Arrivals about the program from its start
-- on. Tests has a concrete world and the witnesses.
pub mod Common
pub mod Config
pub mod External
pub mod World
pub mod System
pub mod Startup
pub mod Db
pub mod Github
pub mod Jenkins
pub mod K8s
pub mod Packets
pub mod Proxy
pub mod Tests
