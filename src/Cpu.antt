-- ===== src/Cpu.antt =====
-- metric/cpu: the counters of /proc/stat, and the percentages between two samples.
mod Types
mod Stat
mod Info
mod Sampling
mod Format
mod Systems
pub mod Laws
unfoldable pub use Types.*
unfoldable pub use Stat.*
unfoldable pub use Info.*
unfoldable pub use Sampling.*
unfoldable pub use Format.*
unfoldable pub use Systems.*
