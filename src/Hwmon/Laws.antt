-- ===== src/Hwmon/Laws.antt =====
-- What the hardware monitors promise.
pub mod Prefixes
pub mod Found
pub mod Reads
pub mod Skips
