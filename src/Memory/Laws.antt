-- ===== src/Memory/Laws.antt =====
-- What the memory metrics say of /proc/meminfo.
pub mod Table
pub mod Panics
pub mod Figures
pub mod Balance
