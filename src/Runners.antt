-- ===== src/Runners.antt =====
-- internal/runners: a pool that runs pipelines step by step, with lifecycle hooks.
pub mod Step
pub mod Hooks
pub mod Pool
pub mod Delivery
mod Tests
