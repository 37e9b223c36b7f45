-- ===== src/Concurrent.antt =====
-- vynkor/concurrent.py. `System` and `Steps` hold the loop and its tasks, `Serve` its caller;
-- `Kept`, `Accounting`, `Loss`, `Merge` and `Replies` are about the responses, `Work` and `Stops`
-- about the loop's end.
pub mod System
pub mod Steps
pub mod Merge
pub mod Kept
pub mod Accounting
pub mod Loss
pub mod Serve
pub mod Work
pub mod Stops
pub mod Replies
mod Tests
