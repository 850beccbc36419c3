-- ===== src/Failover.antt =====
-- src/pycloud_parallel/execution/failover.py: failure classification and the candidate breaker.
pub mod Breaker
pub mod Classify
