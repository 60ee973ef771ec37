-- ===== src/Sapi.antt =====
-- src/sapi: the server context of a request, the callbacks that PHP calls, and the executor.
pub mod Buffer
pub mod Context
pub mod State
pub mod Callbacks
pub mod Engine
pub mod Executor
pub mod Execute
pub mod Instance
pub mod Spec
pub mod Api
