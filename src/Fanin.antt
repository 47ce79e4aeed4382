-- ===== src/Fanin.antt =====
-- The package storage/fanin: queries over a local storage and several remote ones.
pub mod Merge
pub mod Iterator
pub mod Query
pub mod Close
pub mod Remotes
