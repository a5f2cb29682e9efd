-- ===== src/Broker.antt =====
-- src/platform/windows/broker/broker_request_validation.hpp: the checks that the broker makes on
-- messages that it does not trust.
pub mod Strings
pub mod Clock
pub mod License
pub mod Session
pub mod Status
pub mod Entitled
pub mod LicenseText
pub mod Cleanup
pub mod Validation
pub mod History
mod Tests
