-- ===== src/Report.antt =====
-- report: what the collectors tell a `monitoring.Visitor` about the own process and the host.
pub mod Calls
pub mod Own
pub mod Cgroups
pub mod Setup
