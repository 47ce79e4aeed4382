-- ===== src/Retrieval.antt =====
-- The package retrieval: targets, their pools, and the manager of the pools.
pub mod Scrape
pub mod Manager
pub mod Target
pub mod Targets
pub mod Appenders
