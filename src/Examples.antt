-- ===== src/Examples.antt =====
-- examples/: the matchmaker and the assignment service that the repository comes with.
pub mod Integers
pub mod Pairs
pub mod Assignment
mod Tests
