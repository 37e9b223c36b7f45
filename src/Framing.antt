-- ===== src/Framing.antt =====
-- vynkor/framing.py: the constants of the wire format. The children hold the headers, the keys and
-- tags, the encoder and the decoders.
pub mod Primitives
pub mod Header
pub mod Mac
pub mod Pack
pub mod Stream
pub mod Read
pub mod Layout
pub mod Flags
pub mod RoundTrip
pub mod Safety
pub mod Parts
pub mod Agree
pub mod Truncated
pub mod Total
pub mod Raises
pub mod Hkdf
pub mod Tests
pub mod Async
pub mod Simulation
pub mod AsyncAgree
pub mod Suffix
