-- ===== src/Collection.antt =====
-- util/collection/safe_map.go: the map that all stores of the broker are built on.
pub mod Entries
pub mod SafeMap
