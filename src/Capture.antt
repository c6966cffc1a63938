-- ===== src/Capture.antt =====
-- service/.../infrastructure/capture: the component that redirects packets to the relay and back.
pub mod Ports
pub mod Process
pub mod Step
pub mod Routes
pub mod Redirection
pub mod Direct
pub mod Verdicts
mod Tests
