-- ===== src/Message.antt =====
-- broker/core/message: the control packets.
pub mod Kind
pub mod Property
pub mod Reason
pub mod Wire
pub mod Header
pub mod Ack
pub mod Ping
mod Tests
