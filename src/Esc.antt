-- ===== src/Esc.antt =====
-- libs/motor_control/esc: the driver of electronic speed controllers.
pub mod Types
pub mod Api
pub mod Speed
pub mod Safety
pub mod Errors
pub mod Bench
mod Examples
