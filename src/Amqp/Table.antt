-- ===== src/Amqp/Table.antt =====
-- pkg/protocol/amqp091/encode.go (WriteTable, writeTableValue) and decode.go (ReadTable and what it
-- calls). The children hold the two directions and their proofs.
pub mod Value
pub mod Write
pub mod Bytes
pub mod ReadTable
pub mod Fuel
pub mod RoundTrip
