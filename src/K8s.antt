-- ===== src/K8s.antt =====
-- The modules for src/k8s/.
pub mod Instance
pub mod Instances
pub mod Manager
pub mod Lifecycle
pub mod Quiet
pub mod Machine
pub mod Follows
pub mod Consistency
pub mod Rounds
pub mod Recovery
pub mod Progress
pub mod Recovered
pub mod Revived
pub mod Chances
pub mod Endings
pub mod Comes
pub mod Builds
pub mod Polling
