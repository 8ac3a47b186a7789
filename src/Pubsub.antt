-- ===== src/Pubsub.antt =====
-- The publish/subscribe core of the package `iot`: topics, buckets and their message handlers.
pub mod Hash
pub mod Topic
pub mod Table
pub mod Watchers
pub mod Subscribe
pub mod Publish
pub mod Unsubscribe
pub mod Messages
pub mod Routed
pub mod Reach
pub mod Heartbeat
pub mod Remap
pub mod Spec
pub mod Tests
