-- ===== src/Driver.antt =====
-- src/platform/windows/driver/libvirtualhid_umdf.cpp: the parts of the UMDF driver that keep
-- state between the callbacks of the framework.
pub mod Inputs
pub mod Outputs
pub mod Sessions
mod Tests
