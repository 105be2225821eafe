-- ===== src/Service.antt =====
-- broker/core/service/v1: the ring between a connection and the service (buffer.go), and the packets in it
-- (operator.go, process.go).
pub mod Buffer
pub mod Operator
pub mod Process
mod Tests
