-- ===== src/Plugin.antt =====
-- vynkor/plugin.py. `Credentials` picks the connection, `SocketPath` the default socket, `Serve`
-- holds the receive loop, `Defaults` the methods that a plugin may leave, and `Run` goes from the
-- environment to the closed connection; `Policy`, `Lifecycle`, `Outcomes`, `Endings` and `Keys` are
-- about them.
pub mod Credentials
pub mod SocketPath
pub mod Policy
pub mod Serve
pub mod Defaults
pub mod Lifecycle
pub mod Run
pub mod Outcomes
pub mod Endings
pub mod Keys
mod Tests
mod KeysTests
