-- ===== src/Orchestration.antt =====
-- internal/orchestration: task decompositions, their checks, and their dependency-aware scheduler.
pub mod Aggregation
pub mod Types
pub mod Scheduler
pub mod Decomposition
