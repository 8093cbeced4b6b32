-- ===== src/Tests.antt =====
-- Runs on concrete inputs, and the theorems applied to them.
pub mod Calls
pub mod Front
pub mod Contexts
pub mod Lfi
pub mod Closures
pub mod Descriptors
pub mod Memory
pub mod Filters
pub mod Threads
pub mod Copies
pub mod Protocol
