-- ===== src/Commands.antt =====
-- cmd/accumulator, cmd/matcher, cmd/dispenser and cmd/frontend: what the commands make of their
-- flags. Each `RunE` is a function from the values of the flags to the steps it takes.
pub mod Flags
pub mod Steps
pub mod AccumulatorCommand
pub mod MatcherCommand
pub mod DispenserCommand
pub mod FrontendCommand
pub mod ClientCommand
pub mod Closes
pub mod Configured
mod Tests
