-- ===== src/Hwmon.antt =====
-- metric/system/hwmon: the hardware monitors of /sys/class/hwmon.
pub mod Types
pub mod Sensors
pub mod Detect
pub mod Laws
