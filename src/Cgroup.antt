-- ===== src/Cgroup.antt =====
-- metric/system/cgroup: the cgroups of a process.
pub mod Common
pub mod Mountinfo
pub mod Paths
pub mod Version
pub mod V1
pub mod V2
pub mod Io
pub mod Blkio
pub mod MemoryV1
pub mod MemoryV2
pub mod Pressure
pub mod Stats
pub mod Percentages
pub mod Laws
