-- ===== src/Store.antt =====
-- broker/impl/store: the stores of sessions and of messages that are kept in memory.
pub mod Table
pub mod Session
pub mod Message
