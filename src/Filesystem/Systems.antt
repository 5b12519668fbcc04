-- ===== src/Filesystem/Systems.antt =====
-- filesystem_unix.go, filesystem_darwin.go and filesystem_windows.go: the figures of a file system,
-- and the mounts of other systems. What the calls of the systems return is a parameter.
use elastic_agent_system_met.Base.{
  ℕ, Bool, not, ◌&&◌, List, [], ◌∷◌, if◌then◌else◌, Bytes, nat_eq, is_empty, Result, ok, ◌>>=◌,
  wrap_err,
}
use elastic_agent_system_met.Libs.{Float64, Opt}
use elastic_agent_system_met.Filesystem.Mounts.{FsStat, fill_metrics, mount_of}

-- `syscall.Statfs_t`
pub record Statfs : Type 0 where
  pub blocks : ℕ
  pub bfree : ℕ
  pub bavail : ℕ
  pub bsize : ℕ
  pub files : ℕ
  pub ffree : ℕ

-- A mount as Darwin lists it: the names with the zeros that pad them.
pub record Fsstat : Type 0 where
  pub mntonname : Bytes
  pub mntfromname : Bytes
  pub fstypename : Bytes

-- Behind the first zero the list is left as zeros, which are trimmed off.
unfoldable pub byte_list_to_string : Bytes → Bytes
byte_list_to_string [] = []
byte_list_to_string (c ∷ cs) =
    let later = byte_list_to_string cs in if nat_eq c 0 then [] else c ∷ later

module _ (f : Float64) (o : Opt f) where
  -- `GetUsage` of Unix; `mult_uint64_or_none` is the method of `opt.Uint`. The type is changed only
  -- if the call succeeds.
  unfoldable pub get_usage_unix :
      (o.Uint → ℕ → o.Uint) → (Bytes → Result Statfs) → FsStat f o → Result (FsStat f o)
  get_usage_unix mult_uint64_or_none statfs fs = do
    stat ← wrap_err "error in Statfs syscall" (statfs fs.directory)
    ok (
        fill_metrics f o (record fs {
          total = mult_uint64_or_none (o.uint_with stat.blocks) stat.bsize;
          free = mult_uint64_or_none (o.uint_with stat.bfree) stat.bsize;
          avail = mult_uint64_or_none (o.uint_with stat.bavail) stat.bsize;
          files = o.uint_with stat.files;
          free_files = o.uint_with stat.ffree;
        }))

  -- `GetUsage` of Windows, on the available, total and free bytes.
  unfoldable pub get_usage_windows :
      (Bytes → Result (ℕ × (ℕ × ℕ))) → FsStat f o → Result (FsStat f o)
  get_usage_windows disk_free_space fs = do
    (avail, (total, free)) ← wrap_err "GetDiskFreeSpaceEx failed" (disk_free_space fs.directory)
    ok (
        fill_metrics f o (record fs {
          total = o.uint_with total;
          free = o.uint_with free;
          avail = o.uint_with avail;
        }))

  unfoldable pub darwin_mounts : (FsStat f o → Bool) → List Fsstat → List (FsStat f o)
  darwin_mounts filter [] = []
  darwin_mounts filter (stat ∷ stats) =
      let fs =
        mount_of f o (byte_list_to_string stat.mntfromname) (byte_list_to_string stat.mntonname)
          (byte_list_to_string stat.fstypename) [] in
      let rest = darwin_mounts filter stats in if filter fs then fs ∷ rest else rest

  -- `parseMounts` of Darwin, on the buffer that the second call fills.
  unfoldable pub parse_mounts_darwin :
      Result ℕ → Result (List Fsstat) → (FsStat f o → Bool) → Result (List (FsStat f o))
  parse_mounts_darwin count buffer filter = do
    num ← count
    stats ← buffer
    ok (darwin_mounts filter stats)

  -- The loop over the drives, on the drives and the types of their file systems.
  unfoldable pub windows_drives :
      (Bytes → Result Bytes) → (FsStat f o → Bool) → List Bytes → Result (List (FsStat f o))
  windows_drives filesystem_type filter [] = ok []
  windows_drives filesystem_type filter (drive ∷ drives) = do
    fs_type ← wrap_err "GetFilesystemType failed" (filesystem_type drive)
    rest ← windows_drives filesystem_type filter drives
    let fs = mount_of f o drive drive fs_type []
    ok (if not (is_empty fs_type) && filter fs then fs ∷ rest else rest)

  -- `parseMounts` of Windows.
  unfoldable pub parse_mounts_windows :
      Result (List Bytes)
      → (Bytes → Result Bytes)
      → (FsStat f o → Bool)
      → Result (List (FsStat f o))
  parse_mounts_windows access_paths filesystem_type filter = do
    drives ← wrap_err "GetAccessPaths failed" access_paths
    windows_drives filesystem_type filter drives
