-- ===== src/Workflow/Executor.antt =====
-- backend/internal/workflow/executor.go
pub mod World
pub mod Input
pub mod Execute
pub mod Holds
pub mod Quiet
pub mod Invariants
pub mod Cancelled
pub mod Calls
pub mod Deadline
pub mod Control
pub mod Worker
