-- ===== src/Remote/Queue.antt =====
-- storage/remote/queue_manager.go: the queues of samples on their way to a remote storage.
pub mod Backoff
pub mod Shard
pub mod Shards
pub mod Manager
pub mod Lifecycle
pub mod Metrics
