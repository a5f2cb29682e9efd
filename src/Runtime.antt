-- ===== src/Runtime.antt =====
-- src/core/runtime.cpp: the handles of virtual devices, and the runtime that creates them and
-- closes them all.
pub mod Device
pub mod History
pub mod Counting
pub mod Validate
pub mod Store
pub mod State
pub mod Calls
pub mod Ids
mod Tests
