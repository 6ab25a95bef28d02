-- ===== src/Migrate.antt =====
-- pkg/migrate: migration actions, their registry and executor, phases, and the run command.
pub mod Result
pub mod Registry
pub mod Executor
pub mod Phase
pub mod Run
pub mod Steps
pub mod Selection
pub mod Recorder
pub mod Recorded
pub mod Rounds
pub mod Outcome
mod Tests
