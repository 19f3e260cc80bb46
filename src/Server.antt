-- ===== src/Server.antt =====
-- internal/server: channels, and the handlers of the methods that clients send on them.
pub mod Channel
pub mod Session
pub mod VHosts
pub mod BasicHandlers
pub mod ModeHandlers
pub mod QueueHandlers
pub mod ExchangeHandlers
pub mod Dispatcher
pub mod Evolution
pub mod Plain
pub mod EvolutionLaws
pub mod Soundness
pub mod Serve
pub mod TxLaws
pub mod Handshake
pub mod Vouch
pub mod HandshakeLaws
pub mod PlainAuth
pub mod Requests
pub mod RequestReads
pub mod RequestQueues
pub mod RequestExchanges
pub mod RequestLaws
mod Tests
mod HandshakeTests
