-- ===== src/Metric.antt =====
-- What storage/remote and storage/fanin use of the package storage/metric.
pub mod Matcher
