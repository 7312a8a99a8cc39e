-- ===== src/Config.antt =====
-- pkg/config
pub mod Id
pub mod Entries
pub mod File
pub mod Resolve
mod Examples
