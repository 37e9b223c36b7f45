-- ===== src/Gate.antt =====
-- vynkor/confirmation_gate.py. `Names`, `Allowlist`, `Table`, `Route`, `Caller`, `Await` and `Turns`
-- hold its code; `Wildcard` is about the allowlist, `Expiry` about the table, `Branches`, `Consent`,
-- `Once`, `Fresh`, `Outcome` and `Confirm` about `route`, `Calls`, `Preserved` and `AtMostOnce` about its
-- overlapping calls, and `Handshake` about its callers.
pub mod Names
pub mod Allowlist
pub mod Table
pub mod Route
pub mod Wildcard
pub mod Expiry
pub mod Branches
pub mod Consent
pub mod Once
pub mod Caller
pub mod Fresh
pub mod Outcome
pub mod Confirm
pub mod Handshake
pub mod Await
pub mod Turns
pub mod Calls
pub mod Preserved
pub mod AtMostOnce
mod Tests
mod TurnsTests
mod HandshakeTests
