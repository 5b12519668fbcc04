-- ===== src/Filesystem.antt =====
-- metric/system/filesystem: the mounts of the host, filtered and without duplicates.
mod Mounts
mod Duplicates
mod Systems
pub mod Laws
unfoldable pub use Mounts.*
unfoldable pub use Duplicates.*
unfoldable pub use Systems.*
