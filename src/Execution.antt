-- ===== src/Execution.antt =====
-- src/execution: the context of an execution, its hooks, and its result.
pub mod Message
pub mod Header
pub mod Result
pub mod Hooks
pub mod Context
