-- ===== src/Raft/Runtime.antt =====
-- src/raft/runtime.rs: the runtime, which feeds the core with events and carries out its effects.
-- `buf` is scratch space that is cleared before each use, and is left out. `run` takes the messages
-- from a queue and calls `handle_message` for each; awaiting and the shutdown are left out.
pub mod Start
pub mod Execution
pub mod Driving
pub mod Termination
pub mod Restart
pub mod Applying
pub mod Persistence
pub mod Pending
pub mod Answers
pub mod Rounds
pub mod Writing
pub mod Serving
pub mod Durability
pub mod Resuming
pub mod Refusing
pub mod Examples
