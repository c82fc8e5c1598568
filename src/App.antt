-- ===== src/App.antt =====
-- app/src: the firmware's threads.
pub mod Boot
pub mod Bus
pub mod LogName
pub mod Logger
pub mod Telemetry
pub mod Radio
pub mod Sensors
pub mod Startup
pub mod Flight
mod Examples
