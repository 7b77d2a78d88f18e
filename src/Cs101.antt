-- ===== src/Cs101.antt =====
-- The package cs101: FT1.2 frames, and the two stations of a link.
pub mod Control
pub mod Frame
pub mod Config
pub mod Link
pub mod Server
pub mod Client
pub mod Exchange
pub mod Tests
