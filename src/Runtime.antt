-- ===== src/Runtime.antt =====
-- linux/src/runtime.rs: which Node.js or Bun a command in the guest runs with.
pub mod Semver
pub mod Select
pub mod Pins
pub mod Machine
pub mod Resolve
pub mod Install
pub mod Ensure
pub mod Prepare
