-- ===== src/Cgroup/Laws.antt =====
-- What the readers of the cgroup files promise.
pub mod Params
pub mod Mounts
pub mod Devices
pub mod Override
pub mod Blkio
pub mod Readers
pub mod Orders
pub mod Memory
