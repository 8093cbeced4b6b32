-- ===== src/Sandbox.antt =====
-- src/pbox/pbox_sandbox.c, the sandbox's side of the channel.
pub mod Ffi
pub mod Extract
pub mod Recover
pub mod Dispatch
