-- ===== src/Cgroup/Laws/Blkio.antt =====
-- Block I/O of cgroups V1: the values of a device, and the totals over the devices.
pub mod Values
pub mod Fields
pub mod Reads
pub mod Totals
