-- ===== src/Examples.antt =====
-- Concrete instances of what the model takes from outside, and runs of the theorems on them.
pub mod Trees
pub mod Heap
pub mod Names
pub mod Headers
pub mod Named
pub mod Threads
pub mod Restart
pub mod Twice
pub mod Objects
pub mod Locks
pub mod Start
pub mod Huge
pub mod Large
pub mod Unterminated
