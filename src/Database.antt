-- ===== src/Database.antt =====
-- database/core: what every database driver shares.
pub mod Filter
pub mod Cached
