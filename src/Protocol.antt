-- ===== src/Protocol.antt =====
-- protocol.c and protocol.h: requests and responses, as structs and as the texts on the wire.
pub mod Request
pub mod Response
pub mod Transmit
pub mod RoundTrip
pub mod Bounds
pub mod Safety
pub mod Delivery
pub mod Arrival
pub mod Readable
