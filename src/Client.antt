-- ===== src/Client.antt =====
-- vynkor/client.py. `Reassembly`, `Fragments`, `Session`, `Requests`, `Transport`, `Stream`,
-- `Calls`, `Connection` and `Connect` hold its code; `Counting`, `Bounded` and `Invariant` are about
-- the reassembly table, `Frames` about the frames of `send_fragmented`, `Chunks`, `Rounds`,
-- `Numbers`, `Storing`, `AnyOrder`, `Delivery` and `EndToEnd` about fragments on their way, `Clear`
-- and `Secured` about the session, `Correlation` about the requests, `Exchange` and `Conversation`
-- about envelopes between two clients.
pub mod Reassembly
pub mod Fragments
pub mod Frames
pub mod Counting
pub mod Bounded
pub mod Invariant
pub mod Session
pub mod Clear
pub mod Requests
pub mod Correlation
pub mod Chunks
pub mod Rounds
pub mod Numbers
pub mod Storing
pub mod AnyOrder
pub mod Delivery
pub mod Transport
pub mod Calls
pub mod Exchange
pub mod Stream
pub mod EndToEnd
pub mod Conversation
pub mod Secured
pub mod Connection
pub mod Connect
mod Tests
mod WireTests
mod StreamTests
