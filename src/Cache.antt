-- ===== src/Cache.antt =====
-- cache/core: what every cache backend shares.
pub mod Keyspace
pub mod Aside
pub mod Indexed
