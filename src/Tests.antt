-- ===== src/Tests.antt =====
-- The theorems of the library at concrete inputs.
pub mod Data
mod Requests
mod Running
mod Starting
mod Adapting
mod Results
mod Refining
mod Benching
mod Building
