-- ===== src/FileTransfer.antt =====
-- The package filetransfer: a file from the controlled station to the controlling one.
pub mod Sections
pub mod Message
pub mod Sender
pub mod Receiver
pub mod Tests
