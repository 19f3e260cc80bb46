-- ===== src/Routing.antt =====
-- internal/server: bindings and the four exchange types.
pub mod Binding
pub mod Collect
pub mod CollectLaws
pub mod Topic
pub mod TopicLaws
pub mod Headers
pub mod HeaderValues
pub mod HeadersLaws
pub mod Exchange
pub mod ExchangeLaws
mod Tests
