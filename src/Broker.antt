-- ===== src/Broker.antt =====
-- internal/server: the managers of a virtual host and what they hold.
pub mod E2E
pub mod Cycle
pub mod CycleFuel
pub mod Message
pub mod Priority
pub mod Store
pub mod StoreLaws
pub mod Prefetch
pub mod Bindings
pub mod BindingLaws
pub mod Tracker
pub mod TrackerLaws
pub mod Exchanges
pub mod Queues
pub mod Router
pub mod Cascade
pub mod BindingRuns
pub mod RouterLaws
pub mod ExchangeManagerLaws
pub mod Groups
pub mod GroupLaws
pub mod GroupManager
pub mod Consumers
pub mod ConsumerIndex
pub mod ConsumerLaws
mod ConsumerTests
pub mod Acyclic
pub mod StoreRefinement
mod Tests
mod GroupTests
mod RouterTests
mod StoreTests
