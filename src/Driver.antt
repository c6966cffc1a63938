-- ===== src/Driver.antt =====
-- The kernel driver, driver/TcpRedirectorDriver.
pub mod Entities
pub mod Service
pub mod Ioctl
pub mod Callout
pub mod Reach
pub mod Lifecycle
mod Tests
