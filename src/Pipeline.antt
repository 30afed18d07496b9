-- ===== src/Pipeline.antt =====
-- internal/pipeline: pipeline definitions, runs and their store.
pub mod Definition
pub mod Id
pub mod Run
pub mod Store
mod Tests
