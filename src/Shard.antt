-- ===== src/Shard.antt =====
-- packages/core/src/shard: the archives of a shard.
pub mod Tar
