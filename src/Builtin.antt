-- ===== src/Builtin.antt =====
-- src/builtin: the components that need no client of a database or a broker.
pub mod HttpChecker
pub mod Uptime
pub mod Broadcast
