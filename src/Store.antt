-- ===== src/Store.antt =====
-- store/store.go: the durable store, its channels and the subscriptions to them.
pub mod Options
pub mod Channel
pub mod Keys
pub mod Entries
pub mod Channels
pub mod Index
pub mod Reading
pub mod Locks
