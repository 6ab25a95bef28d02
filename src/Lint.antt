-- ===== src/Lint.antt =====
-- pkg/lint: results of checks, the registry and the executor of checks, and the verdict of a run.
pub mod Result
pub mod Condition
pub mod Severity
pub mod Verdict
pub mod Worst
pub mod Kept
pub mod Chosen
pub mod Precedence
pub mod Covered
pub mod Flattened
pub mod Findings
pub mod Exit
pub mod Glob
pub mod Check
pub mod Registry
pub mod Executor
pub mod Options
pub mod Upgrade
pub mod Selectors
pub mod Readiness
pub mod Selection
pub mod Executions
mod Tests
