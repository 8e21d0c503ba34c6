-- ===== src/Sample.antt =====
-- A small world for tests: sets as lists, and an in-memory store, stream and pub-sub channel that
-- meet the assumptions of `Platform`.
pub mod ListSets
pub mod Equality
pub mod Documents
pub mod Codecs
pub mod Memory
pub mod World
pub mod Pairing
pub mod Steady
pub mod Cluster
pub mod CommandLine
