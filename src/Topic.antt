-- ===== src/Topic.antt =====
-- broker/impl/topic: subscriptions and retained messages by topic.
pub mod Level
pub mod Tree
pub mod Retained
