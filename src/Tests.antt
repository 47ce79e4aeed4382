-- ===== src/Tests.antt =====
-- Runs of the theorems at concrete inputs.
mod Queue
mod Series
mod Remotes
mod Scrapes
mod Writers
mod Handlers
mod Lifecycle
mod Lives
mod Federation
mod Command
mod Proxies
mod Pipeline
