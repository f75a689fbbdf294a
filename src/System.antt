-- ===== src/System.antt =====
-- The tasks of the program together: src/main.rs and how its tasks change the state they share.
pub mod Steps
pub mod Calls
pub mod Tasks
pub mod Starts
pub mod Sessions
pub mod Forwarding
pub mod Loops
pub mod Logins
pub mod Clients
pub mod Sound
pub mod Courses
