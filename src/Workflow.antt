-- ===== src/Workflow.antt =====
-- backend/internal/workflow: definitions, runs, the registry and the executor.
pub mod Status
pub mod Definition
pub mod Run
pub mod Registry
pub mod Manual
pub mod Executor
