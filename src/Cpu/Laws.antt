-- ===== src/Cpu/Laws.antt =====
-- What the CPU metrics say of /proc/stat.
pub mod Format
pub mod Monitor
pub mod Stat
pub mod Cores
