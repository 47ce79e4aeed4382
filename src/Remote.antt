-- ===== src/Remote.antt =====
-- The package storage/remote.
pub mod Iterator
pub mod Queue
pub mod Ewma
pub mod Client
pub mod Read
pub mod Write
pub mod Pipeline
