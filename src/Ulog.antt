-- ===== src/Ulog.antt =====
-- libs/logging/ulog: the ULog writer.
pub mod Platform
pub mod Types
pub mod Format
pub mod Write
pub mod Api
pub mod Outcome
pub mod Message
pub mod Recorded
pub mod Appends
pub mod FullDisk
pub mod Generated
pub mod Session
pub mod Memory
pub mod ShortDisk
mod FullCard
mod Examples
