-- ===== src/Tests.antt =====
-- Runs of the operations on a small database, and the theorems at such runs.
pub mod Tokens
pub mod Logins
pub mod Web
pub mod Startup
pub mod Fixture
pub mod Runs
pub mod UserRuns
pub mod Examples
pub mod Parts
