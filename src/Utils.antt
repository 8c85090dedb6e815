-- ===== src/Utils.antt =====
-- utils/: splitting lines and fields, numbers as bytes.
pub mod Fields
pub mod Lines
pub mod Bytes
pub mod Buffer
pub mod Listener
mod Tests
