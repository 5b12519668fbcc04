-- ===== src/Process/Laws.antt =====
-- What the process collector promises.
pub mod Top
pub mod Comm
pub mod Tracked
pub mod Pids
pub mod Boot
pub mod Total
pub mod Started
