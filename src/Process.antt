-- ===== src/Process.antt =====
-- metric/system/process: the processes of a Linux host.
pub mod Types
pub mod Info
pub mod Pid
pub mod Fill
pub mod Percent
pub mod Top
pub mod Track
pub mod Stats
pub mod Fetch
pub mod Report
pub mod Init
pub mod Systems
pub mod Laws
