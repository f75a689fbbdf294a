-- ===== src/Db.antt =====
-- The modules for src/db/.
pub mod Table
pub mod Queries
pub mod Rows
pub mod Effects
pub mod Init
pub mod Opened
pub mod Store
