-- ===== src/Queue.antt =====
-- engine/queue: message ids and the sequence numbers inside them, the metadata, and the operations.
pub mod MessageId
pub mod IdGenerator
pub mod Config
pub mod Metadata
pub mod Imp
mod Tests
