-- ===== src/Kafka.antt =====
-- engine/kafka: the consumer with its acknowledgements, the assignment of replicas and the manager.
pub mod Ack
pub mod Consumer
pub mod Assign
pub mod Manager
pub mod Opening
