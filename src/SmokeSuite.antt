-- ===== src/SmokeSuite.antt =====
-- utils/transport-smoke-suite: what its runs claim of the logs.
pub mod Host
pub mod Claims
pub mod Logs
pub mod Shell
pub mod Process
pub mod Teardown
pub mod Report
pub mod Matrix
pub mod Rendering
pub mod Env
