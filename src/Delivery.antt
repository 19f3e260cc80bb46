-- ===== src/Delivery.antt =====
-- internal/server: how a message that is published reaches queues and consumers, and how it leaves a
-- queue.
pub mod Policy
pub mod Deliverer
pub mod Publisher
pub mod Pull
pub mod PublisherFuel
pub mod Bounds
pub mod PullLaws
pub mod Tests
