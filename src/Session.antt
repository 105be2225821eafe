-- ===== src/Session.antt =====
-- broker/core/session and broker/impl/session: what a client's session keeps.
pub mod AckMsg
pub mod AckQueue
pub mod Memory
