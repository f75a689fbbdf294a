-- ===== src/Proxy.antt =====
-- The modules for src/proxy.rs and src/proxy/.
pub mod Backends
pub mod Server
pub mod Wire
pub mod Session
pub mod Forward
pub mod Client
pub mod Commands
pub mod Connector
pub mod Handlers
pub mod Login
pub mod Loop
pub mod Launch
pub mod Start
pub mod Frames
pub mod Intercepts
pub mod Named
pub mod Negotiation
pub mod Permissions
pub mod Reconnect
pub mod Whole
pub mod Reading
pub mod Transparent
pub mod Switching
pub mod Races
pub mod Lookups
pub mod Observes
pub mod Relay
pub mod Sends
pub mod Passes
pub mod Relayed
pub mod Readers
pub mod Drains
pub mod Departures
pub mod Visits
