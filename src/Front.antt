-- ===== src/Front.antt =====
-- The C++ front ends of include/sbox/.
pub mod Types
pub mod Check
pub mod Convert
pub mod Crossing
pub mod Pointers
pub mod Call
pub mod Arrays
pub mod Cached
pub mod Returns
pub mod Typed
pub mod Callback
pub mod Delivered
pub mod Round
pub mod Registration
pub mod Registered
pub mod Context
pub mod Memory
pub mod Strings
pub mod Current
