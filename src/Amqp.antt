-- ===== src/Amqp.antt =====
-- pkg/protocol/amqp091: the AMQP 0-9-1 wire format.
pub mod Octets
pub mod Signed
pub mod Frame
pub mod Encode
pub mod Decode
pub mod Words
pub mod FrameTrip
pub mod Framer
pub mod FramerLaws
pub mod Table
mod Tests
