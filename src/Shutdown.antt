-- ===== src/Shutdown.antt =====
-- apps/engine/src/shutdown.rs: the shutdown token, the parties that the process waits for, and the
-- bounds of the wait.
pub mod Token
pub mod Process
pub mod Wait
pub mod Grace
mod Examples
