-- ===== src/Observability.antt =====
-- internal/observability: the tracker of a hook registry, and the collector of counters and stats.
pub mod Tracker
pub mod Collector
pub mod Logger
