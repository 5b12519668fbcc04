-- ===== src/Memory.antt =====
-- metric/memory: /proc/meminfo and the memory metrics that Linux derives from it.
mod Types
mod Meminfo
mod Linux
mod Systems
pub mod Laws
unfoldable pub use Types.*
unfoldable pub use Meminfo.*
unfoldable pub use Systems.*
unfoldable pub use Linux.*
