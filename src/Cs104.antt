-- ===== src/Cs104.antt =====
-- The package cs104: the APCI, the session state machine, the configuration.
pub mod Apci
pub mod Sequence
pub mod Config
pub mod Receive
pub mod Transfer
pub mod Handler
pub mod Session
pub mod Tests
