-- ===== src/Adapter.antt =====
-- src/core/gamepad_adapter.cpp: what a gamepad profile supports, as the portable adapter sees it.
pub mod Support
pub mod Outputs
pub mod State
mod Tests
