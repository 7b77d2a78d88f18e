-- ===== src/Asdu.antt =====
-- The package asdu: the application service data unit.
pub mod Error
pub mod TypeId
pub mod Identifier
pub mod Information
pub mod Message
pub mod Codec
pub mod Marshal
pub mod System
pub mod Monitor
pub mod Command
pub mod Tests
