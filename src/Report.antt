-- ===== src/Report.antt =====
-- src/core/report.cpp, in the order of the file: bytes and checksums, the decoders of output
-- reports, the packing of buttons.
pub mod Bytes
pub mod Crc
pub mod ButtonBits
pub mod Hat
pub mod PidReport
pub mod SwitchReport
pub mod PlayStation
pub mod Parse
mod Tests
