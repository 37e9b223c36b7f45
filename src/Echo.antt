-- ===== src/Echo.antt =====
-- examples/echo_plugin.py. `Handlers` holds its code, `Sorted` and `Sessions` are about its
-- streaming sessions, `Answers` about its other actions, and `Served` about the plugin under
-- `serve`.
pub mod Handlers
pub mod Sorted
pub mod Sessions
pub mod Answers
pub mod Served
mod Tests
mod ServedTests
